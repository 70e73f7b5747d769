-- ===== src/Send/Idempotency/Laws.antt =====
-- Who owns an attempt, and what a finished one answers.
use whatsapp_mcp_pro.Base.{
  ℕ, ◌≡◌, ◌∙◌, ap, refl, Bool, ◌⊎◌, inl, inr, [], ◌∷◌, ◌++◌, none, some, true, false, ◌&&◌, String,
  str_eq, eq_iff, arith, if◌then◌else◌, Bool-cases,
}
use whatsapp_mcp_pro.Send.Idempotency.{
  IdempotencyRecord, Table, is_row, get, update, is_expired, purge, is_reclaimable, reclaim, Faults,
  owned, held, store_error, insert_or_ignore, reclaim_row, claim_among, claim,
}

module _ (key scope : String) where
  pub get-update :
      (f : IdempotencyRecord → IdempotencyRecord) (t : Table) (r : IdempotencyRecord)
      → ((q : IdempotencyRecord) → is_row key scope q ≡ true → is_row key scope (f q) ≡ true)
      → get key scope t ≡ some r
      → get key scope (update key scope f t) ≡ some (f r)
  unfolding get update
  get-update f [] r keep e = cc
  get-update f (q ∷ t) r keep e = elim (Bool-cases (is_row key scope q)) [
    | inl here ↦ ground (arith, keep q here)
    | inr there ↦ ground (arith, get-update f t r keep (ground arith))
  ]

  pub get-purge :
      (now : ℕ) (t : Table) (r : IdempotencyRecord)
      → get key scope t ≡ some r
      → is_expired now r ≡ false
      → get key scope (purge now t) ≡ some r
  unfolding get purge
  get-purge now [] r e live = cc
  get-purge now (q ∷ t) r e live = ground (arith, get-purge now t r)

pub get-append :
    (key scope : String) (t : Table) (r : IdempotencyRecord)
    → get key scope t ≡ none
    → is_row key scope r ≡ true
    → get key scope (t ++ r ∷ []) ≡ some r
unfolding get
get-append key scope [] r e own = ground arith
get-append key scope (q ∷ t) r e own = ground (arith, get-append key scope t r)

pub get-append_some :
    (key scope : String) (t u : Table) (r : IdempotencyRecord)
    → get key scope t ≡ some r
    → get key scope (t ++ u) ≡ some r
unfolding get
get-append_some key scope [] u r e = cc
get-append_some key scope (q ∷ t) u r e = ground (arith, get-append_some key scope t u r)

-- An update of another key leaves this one's row.
pub get-update_ne :
    (key scope k s : String) (f : IdempotencyRecord → IdempotencyRecord) (t : Table)
    → ((q : IdempotencyRecord) → is_row k s q ≡ true → is_row k s (f q) ≡ true)
    → (str_eq k key && str_eq s scope) ≡ false
    → get key scope (update k s f t) ≡ get key scope t
unfolding get update
get-update_ne key scope k s f [] keep ne = refl
get-update_ne key scope k s f (q ∷ t) keep ne = elim (Bool-cases (is_row k s q)) [
  | inl here ↦ ground (
    arith,
    keep q here,
    get-update_ne key scope k s f t keep ne,
    eq_iff q.key k,
    eq_iff q.scope s,
    eq_iff (f q).key k,
    eq_iff (f q).scope s,
  )
  | inr there ↦ ground (arith, get-update_ne key scope k s f t keep ne)
]

pub reclaim-is_row :
    (key scope h : String) (now : ℕ) (q : IdempotencyRecord)
    → is_row key scope q ≡ true
    → is_row key scope (reclaim h now q) ≡ true
unfolding reclaim
reclaim-is_row key scope h now q e = ground arith

pub insert_known :
    (key scope h : String) (now : ℕ) (t : Table) (r : IdempotencyRecord)
    → get key scope t ≡ some r
    → insert_or_ignore key scope h now t ≡ (t, false)
unfolding insert_or_ignore
insert_known key scope h now t r e = rw (e, insert_or_ignore) refl

pub reclaim_kept :
    (h : String) (now : ℕ) (r : IdempotencyRecord)
    → is_reclaimable h now r ≡ false
    → reclaim h now r ≡ r
unfolding reclaim
reclaim_kept h now r e = ground (arith, e)

-- A claim of a key whose row is live answers by that row, and leaves it as the reclaim says.
pub claim-live :
    (f : Faults) (key scope h : String) (now : ℕ) (t : Table) (r : IdempotencyRecord)
    → get key scope t ≡ some r
    → is_expired now r ≡ false
    → ((get key scope (claim f key scope h now t).0 ≡ some r)
        × ((claim f key scope h now t).1 ≡ store_error))
      ⊎ ((get key scope (claim f key scope h now t).0 ≡ some (reclaim h now r))
          × (((claim f key scope h now t).1 ≡ store_error)
              ⊎ ((claim f key scope h now t).1
                  ≡ (if is_reclaimable h now r then owned (reclaim h now r) else held r))))
unfolding claim claim_among insert_or_ignore reclaim_row
claim-live f key scope h now t r e live =
    let kept = get-purge key scope now t r e live in
    let known = insert_known key scope h now (purge now t) r kept in
    let after =
      get-update key scope (reclaim h now) (purge now t) r (reclaim-is_row key scope h now) kept in
    ground (
      arith,
      kept,
      after,
      ap (λ (q : Table × Bool). get key scope q.0) known ∙ kept,
      ap (λ (q : Table × Bool). get key scope (update key scope (reclaim h now) q.0)) known ∙ after,
      ap (λ (q : Table × Bool). update key scope (reclaim h now) q.0) known,
      reclaim_kept h now r,
    )
