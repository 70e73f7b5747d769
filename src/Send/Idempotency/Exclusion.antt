-- ===== src/Send/Idempotency/Exclusion.antt =====
-- Requests that use the table at the same time, as an arbitrary sequence of its statements.
use whatsapp_mcp_pro.Base.{
  ℕ, ◌+◌, ◌≤◌, ◌≡◌, ◌∙◌, ap, refl, ◌⊎◌, inl, inr, List, [], ◌∷◌, some, Bool, true, false, ◌&&◌,
  String, str_eq, eq_iff, ltb, arith, Bool-cases, Option-cases, subst₂, sym,
}
use whatsapp_mcp_pro.Send.Idempotency.{
  in_flight, done, failed, IdempotencyRecord, Table, is_row, get, update, is_expired, purge,
  idempotency_ttl, idempotency_stale_in_flight, new_record, is_reclaimable, reclaim,
  insert_or_ignore, reclaim_row, Faults, Claim, owned, held, store_error, claim_among, claim,
  set_message_id, finished, finish,
}
use whatsapp_mcp_pro.Send.Idempotency.Laws.{
  claim-live, reclaim-is_row, get-update, get-update_ne, get-purge, get-append, get-append_some,
  insert_known,
}
use whatsapp_mcp_pro.Send.Idempotency.Statements.{
  Op, purges, inserts, reclaims, dispatches, finishes, apply, apply_all, wins, Others, AllOthers,
  claiming,
}

-- A row that no claim can take over up to `until`.
abbrev pub Settled : ℕ → IdempotencyRecord → Type 0
Settled until r =
    (until ≤ r.created_at + idempotency_ttl)
    × ((r.status ≡ done)
        ⊎ ((r.status ≡ in_flight) × (until ≤ r.updated_at + idempotency_stale_in_flight)))

Settled-reclaim :
    (until now : ℕ) (h : String) (r : IdempotencyRecord)
    → Settled until r
    → now ≤ until
    → (is_reclaimable h now r ≡ false) × (is_expired now r ≡ false) × (reclaim h now r ≡ r)
unfolding reclaim is_reclaimable
Settled-reclaim until now h r s le = ground arith

-- One of the answers of a claim that does not own the key.
abbrev pub NotOwned : IdempotencyRecord → Claim → Type 0
NotOwned r answer = (answer ≡ store_error) ⊎ (answer ≡ held r)

module _ (key scope : String) (until : ℕ) (r : IdempotencyRecord) (s : Settled until r) where
  pub claim-Settled :
      (f : Faults) (h : String) (now : ℕ) (t : Table)
      → get key scope t ≡ some r
      → now ≤ until
      → (get key scope (claim f key scope h now t).0 ≡ some r)
        × NotOwned r (claim f key scope h now t).1
  claim-Settled f h now t e le =
      let (kept, live, same) = Settled-reclaim until now h r s le in
      ground (arith, claim-live f key scope h now t r e live)

  same_key : (k c : String) → (str_eq k key && str_eq c scope) ≡ true → (k ≡ key) × (c ≡ scope)
  same_key k c e = ground (arith, eq_iff k key, eq_iff c scope)

  insert-Settled :
      (k c h : String) (now : ℕ) (t : Table)
      → get key scope t ≡ some r
      → get key scope (insert_or_ignore k c h now t).0 ≡ some r
  unfolding insert_or_ignore
  insert-Settled k c h now t e = elim (Option-cases (get k c t)) [
    | inl new ↦
        rw (new, insert_or_ignore) (get-append_some key scope t (new_record k c h now ∷ []) r e)
    | inr (q, old) ↦ rw (old, insert_or_ignore) e
  ]

  reclaim-Settled :
      (h : String) (now : ℕ) (t : Table)
      → get key scope t ≡ some r
      → now ≤ until
      → get key scope (update key scope (reclaim h now) t) ≡ some r
  reclaim-Settled h now t e le =
      let (kept, live, same) = Settled-reclaim until now h r s le in
      get-update key scope (reclaim h now) t r (reclaim-is_row key scope h now) e
      ∙ ap (λ (q : IdempotencyRecord). some q) same

  apply-Settled :
      (t : Table) (op : Op)
      → get key scope t ≡ some r
      → Others key scope until op
      → get key scope (apply t op) ≡ some r
  unfolding apply set_message_id finish finished reclaim_row
  apply-Settled t (purges now) e le =
      get-purge key scope now t r e (Settled-reclaim until now "" r s le).1
  apply-Settled t (inserts k c h now) e le = insert-Settled k c h now t e
  apply-Settled t (reclaims k c h now) e le = elim (Bool-cases (str_eq k key && str_eq c scope)) [
    | inr ne ↦ get-update_ne key scope k c (reclaim h now) t (reclaim-is_row k c h now) ne ∙ e
    | inl eq ↦
        subst₂ (λ a b. get key scope (update a b (reclaim h now) t) ≡ some r)
          (sym (same_key k c eq).0) (sym (same_key k c eq).1) (reclaim-Settled h now t e le)
  ]
  apply-Settled t (dispatches k c id) e ne = ground (
    arith,
    get-update_ne key scope k c (λ (q : IdempotencyRecord). record q { message_id = id }) t
        (λ q own. own) ne,
  )
  apply-Settled t (finishes k c status id code response now) e ne = ground (
    arith,
    get-update_ne key scope k c (finished status id code response now) t (λ q own. own) ne,
  )

  -- No statement of a claim of the key wins.
  wins-Settled :
      (again : Bool) (h : String) (now : ℕ) (t : Table)
      → get key scope t ≡ some r
      → now ≤ until
      → wins (claiming again key scope h now) t ≡ false
  unfolding wins reclaim_row
  wins-Settled false h now t e le =
      ap (λ (q : Table × Bool). q.1) (insert_known key scope h now t r e)
  wins-Settled true h now t e le = rw (e, wins, reclaim_row) (Settled-reclaim until now h r s le).0

  apply_all-Settled :
      (ops : List Op) (t : Table)
      → get key scope t ≡ some r
      → AllOthers key scope until ops
      → get key scope (apply_all t ops) ≡ some r
  unfolding apply_all
  apply_all-Settled [] t e o = e
  apply_all-Settled (op ∷ ops) t e o =
      apply_all-Settled ops (apply t op) (apply-Settled t op e o.0) o.1

-- What a claim that owns the key leaves in the table.
pub owned-row :
    (f : Faults) (key scope h : String) (now : ℕ) (t : Table) (r : IdempotencyRecord)
    → (claim f key scope h now t).1 ≡ owned r
    → (get key scope (claim f key scope h now t).0 ≡ some r)
      × (r.status ≡ in_flight)
      × (r.updated_at ≡ now)
      × (r.payload_hash ≡ h)
unfolding claim claim_among insert_or_ignore reclaim_row reclaim is_reclaimable new_record
owned-row f key scope h now t r e = elim (Option-cases (get key scope (purge now t))) [
  | inl new ↦ ground (
    arith,
    eq_iff key key,
    eq_iff scope scope,
    get-append key scope (purge now t) (new_record key scope h now) new,
  )
  | inr (q, old) ↦ ground (
    arith,
    eq_iff q.payload_hash h,
    get-update key scope (reclaim h now) (purge now t) q (reclaim-is_row key scope h now) old,
  )
]

-- The row of a statement that wins.
wins-row :
    (again : Bool) (key scope h : String) (now : ℕ) (t : Table) (r : IdempotencyRecord)
    → wins (claiming again key scope h now) t ≡ true
    → get key scope (apply t (claiming again key scope h now)) ≡ some r
    → (r.status ≡ in_flight) × (r.updated_at ≡ now)
unfolding wins apply reclaim_row insert_or_ignore new_record reclaim
wins-row false key scope h now t r won row = elim (Option-cases (get key scope t)) [
  | inr (q, old) ↦ absurd (ground (arith, won, old))
  | inl new ↦ ground (
    arith,
    row,
    new,
    eq_iff key key,
    eq_iff scope scope,
    get-append key scope t (new_record key scope h now) new,
  )
]
wins-row true key scope h now t r won row = elim (Option-cases (get key scope t)) [
  | inl new ↦ absurd (ground (arith, won, new))
  | inr (q, old) ↦ ground (
    arith,
    row,
    won,
    old,
    get-update key scope (reclaim h now) t q (reclaim-is_row key scope h now) old,
  )
]

-- A claim answers that its caller owns the key only if its INSERT or its UPDATE won, whatever other
-- requests do between its statements.
pub claim_among-wins :
    (p i u : Table → Table) (f : Faults) (key scope h : String) (now : ℕ) (t : Table)
    (r : IdempotencyRecord)
    → (claim_among p i u f key scope h now t).1 ≡ owned r
    → (wins (claiming false key scope h now) (p (purge now t)) ≡ true)
      ⊎ (wins
            (claiming true key scope h now)
            (i (insert_or_ignore key scope h now (p (purge now t))).0)
          ≡ true)
unfolding claim_among wins
claim_among-wins p i u f key scope h now t r e = ground (arith, e)

-- After the INSERT or the UPDATE that gave a request a key, no INSERT or UPDATE of another claim
-- of the same key and scope affects a row, until five minutes after it and 24 hours after the row
-- was created, whatever statements of claims, of this key and of others, come in between, in any
-- order, with clocks up to then. Other keys may also be finished and dispatched in that time; this
-- one is not, be it by its owner or by an earlier one that took longer than five minutes.
pub claim_exclusive :
    (again again' : Bool) (key scope h j : String) (begun now until : ℕ) (t : Table)
    (r : IdempotencyRecord) (ops : List Op)
    → wins (claiming again key scope h begun) t ≡ true
    → get key scope (apply t (claiming again key scope h begun)) ≡ some r
    → until ≤ begun + idempotency_stale_in_flight
    → until ≤ r.created_at + idempotency_ttl
    → AllOthers key scope until ops
    → now ≤ until
    → wins
        (claiming again' key scope j now)
        (apply_all (apply t (claiming again key scope h begun)) ops)
      ≡ false
claim_exclusive again again' key scope h j begun now until t r ops won row stale ttl others le =
    let (flying, fresh) = wins-row again key scope h begun t r won row in
    let settled : Settled until r = (ttl, inr (flying, omega arith)) in
    wins-Settled key scope until r settled again' j now _
      (apply_all-Settled key scope until r settled ops _ row others) le

-- A request that was recorded as done is not repeated: whatever statements other requests run, a
-- claim of the same key and scope up to 24 hours after the row was created is answered with the
-- recorded outcome, or with an error of the store, and never owns the key.
pub finish_replays :
    (g : Faults) (key scope j id response : String) (code ended now until : ℕ) (t : Table)
    (r : IdempotencyRecord) (ops : List Op)
    → get key scope t ≡ some r
    → until ≤ r.created_at + idempotency_ttl
    → AllOthers key scope until ops
    → now ≤ until
    → NotOwned
        (finished done id code response ended r)
        (claim g key scope j now (apply_all (finish key scope done id code response ended t) ops)).1
unfolding finish finished
finish_replays g key scope j id response code ended now until t r ops row ttl others le =
    let r' = finished done id code response ended r in
    let settled : Settled until r' = (ttl, inl refl) in
    let ended_row =
      get-update key scope (finished done id code response ended) t r (λ q own. own) row in
    (claim-Settled key scope until r' settled g j now _
      (apply_all-Settled key scope until r' settled ops _ ended_row others) le).1

abbrev pub no_faults : Faults
no_faults = record {
  purge_fails = false;
  insert_fails = false;
  update_fails = false;
  get_fails = false;
}

-- The exclusion ends with the lifetime of the row, which a new attempt does not extend: when a
-- failed key is claimed again with the same payload before its 24 hours are over, and once more
-- after they are over, however shortly after, both claims own the key, and the second starts from
-- a fresh row, without the message ID of the attempt that is still in flight. Stated for a table
-- that holds the one row and a store that answers.
pub reclaim_overlap :
    (key scope h : String) (begun now : ℕ) (r : IdempotencyRecord)
    → is_row key scope r ≡ true
    → r.status ≡ failed
    → str_eq r.payload_hash h ≡ true
    → is_expired begun r ≡ false
    → is_expired now r ≡ true
    → ((claim no_faults key scope h begun (r ∷ [])).1 ≡ owned (reclaim h begun r))
      × ((claim no_faults key scope h now (claim no_faults key scope h begun (r ∷ [])).0).1
          ≡ owned (new_record key scope h now))
unfolding claim claim_among insert_or_ignore reclaim_row purge get update reclaim is_reclaimable
reclaim_overlap key scope h begun now r row failed_ same live old = ground arith

-- Of a row that holds an attempt whose owner has been at it for more than five minutes, a second
-- claim owns the key; when the first owner then ends in a failure, a third claim with the same
-- payload owns the key as well, however shortly after the second. Stated for a table that holds
-- the one row, for claims until 24 hours after it was created, and a store that answers.
pub superseded_finish :
    (key scope h id response : String) (code ended now later : ℕ) (r : IdempotencyRecord)
    → is_row key scope r ≡ true
    → r.status ≡ in_flight
    → str_eq r.payload_hash h ≡ true
    → ltb (r.updated_at + idempotency_stale_in_flight) now ≡ true
    → is_expired now r ≡ false
    → is_expired later r ≡ false
    → let second = claim no_faults key scope h now (r ∷ []) in
      let third =
        claim no_faults key scope h later
          (finish key scope failed id code response ended second.0) in
      (second.1 ≡ owned (reclaim h now r))
      × (third.1
          ≡ owned (reclaim h later (finished failed id code response ended (reclaim h now r))))
unfolding claim claim_among insert_or_ignore reclaim_row purge get update reclaim is_reclaimable
    finish finished
superseded_finish key scope h id response code ended now later r row flying same stale live live' =
    ground arith
