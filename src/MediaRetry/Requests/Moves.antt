-- ===== src/MediaRetry/Requests/Moves.antt =====
-- Which requests the loop may take up, and the ones that it leaves alone.
use whatsapp_mcp_pro.Base.{
  ℕ, zero, suc, ◌≤◌, ◌≡◌, inl, inr, List, [], ◌∷◌, ◌++◌, map, some, Bool, true, false, ◌&&◌, str_eq,
  eq_iff, String, arith, filter, take, length, All, length-take-le, All-map_of, Option-cases,
  Bool-cases,
}
use whatsapp_mcp_pro.MediaRetry.Requests.{
  failed, MediaRequest, Store, get, update, upsert, reopened, enqueue, is_due, comes_before,
  insert_ordered, order, due, mark_retry, is_unanswered, expire_sent,
}

All-insert_ordered :
    (P : MediaRequest → Type 0) (r : MediaRequest) (rs : List MediaRequest)
    → P r
    → All P rs
    → All P (insert_ordered r rs)
unfolding insert_ordered
All-insert_ordered P r [] h k = (h, tt)
All-insert_ordered P r (q ∷ qs) h k = ground (arith, All-insert_ordered P r qs h k.1)

All-order : (P : MediaRequest → Type 0) (rs : List MediaRequest) → All P rs → All P (order rs)
unfolding order
All-order P [] h = tt
All-order P (r ∷ rs) h = All-insert_ordered P r (order rs) h.0 (All-order P rs h.1)

All-filter :
    (p : MediaRequest → Bool) (rs : List MediaRequest) → All (λ r. p r ≡ true) (filter p rs)
All-filter p [] = tt
All-filter p (r ∷ rs) = ground (arith, All-filter p rs)

All-take :
    (P : MediaRequest → Type 0) (n : ℕ) (rs : List MediaRequest) → All P rs → All P (take n rs)
All-take P zero rs h = tt
All-take P (suc n) [] h = tt
All-take P (suc n) (r ∷ rs) h = (h.0, All-take P n rs h.1)

-- Oldest first.
abbrev pub OldestFirst : List MediaRequest → Type 0
OldestFirst [] = Unit
OldestFirst (r ∷ rs) = All (λ q. r.created_at ≤ q.created_at) rs × OldestFirst rs

insert_ordered-OldestFirst :
    (r : MediaRequest) (rs : List MediaRequest) → OldestFirst rs → OldestFirst (insert_ordered r rs)
unfolding insert_ordered comes_before
insert_ordered-OldestFirst r [] h = (tt, tt)
insert_ordered-OldestFirst r (q ∷ qs) h = elim (Bool-cases (comes_before r q)) [
  | inl before ↦
      rw (before, insert_ordered)
        ((ground (arith, before), All-map_of _ _ qs (λ x e. ground (arith, before)) h.0), h)
  | inr after ↦
      rw (after, insert_ordered)
        (
          All-insert_ordered (λ x. q.created_at ≤ x.created_at) r qs (ground (arith, after)) h.0,
          insert_ordered-OldestFirst r qs h.1,
        )
]

order-OldestFirst : (rs : List MediaRequest) → OldestFirst (order rs)
unfolding order
order-OldestFirst [] = tt
order-OldestFirst (r ∷ rs) = insert_ordered-OldestFirst r (order rs) (order-OldestFirst rs)

take-OldestFirst : (n : ℕ) (rs : List MediaRequest) → OldestFirst rs → OldestFirst (take n rs)
take-OldestFirst zero rs h = tt
take-OldestFirst (suc n) [] h = tt
take-OldestFirst (suc n) (r ∷ rs) h = (All-take _ n rs h.0, take-OldestFirst n rs h.1)

-- What DueMediaRequests hands out: at most as many requests as asked for, oldest first, each of
-- them pending and either never asked about or last asked about before the given instant.
pub due_lem :
    (limit retry_before : ℕ) (rs : List MediaRequest)
    → (length (due limit retry_before rs) ≤ limit)
      × OldestFirst (due limit retry_before rs)
      × All (λ r. is_due retry_before r ≡ true) (due limit retry_before rs)
unfolding due
due_lem limit retry_before rs =
    let found = filter (is_due retry_before) rs in
    (
      length-take-le limit (order found),
      take-OldestFirst limit (order found) (order-OldestFirst found),
      All-take _ limit (order found) (All-order _ found (All-filter (is_due retry_before) rs)),
    )

-- What the bridge does with the table without being asked for a download or told of a success.
pub data Background : Type 0 where
  enqueues : String → String → ℕ → Background
  retries : String → String → String → ℕ → ℕ → Background
  expires : ℕ → ℕ → ℕ → Background

unfoldable pub run : List Background → Store → Store
run [] s = s
run (enqueues message chat now ∷ ops) s =
    run ops (record s { requests = (enqueue message chat now s.requests).0 })
run (retries message chat err max_attempts now ∷ ops) s =
    run ops (mark_retry message chat err max_attempts now s)
run (expires cutoff max_attempts now ∷ ops) s = run ops (expire_sent cutoff max_attempts now s)

-- A change that keeps the key of every row.
abbrev pub KeepsKey : (MediaRequest → MediaRequest) → Type 0
KeepsKey f = (q : MediaRequest) → ((f q).message_id ≡ q.message_id) × ((f q).chat_jid ≡ q.chat_jid)

pub reopened-KeepsKey : (now : ℕ) → KeepsKey (reopened now)
unfolding reopened
reopened-KeepsKey now q = ground arith

reopened_failed : (now : ℕ) {r : MediaRequest} → r.state ≡ failed → reopened now r ≡ r
unfolding reopened
reopened_failed now f = ground arith

-- The row of a key after an update of that key.
pub get-update :
    (m c : String) (f : MediaRequest → MediaRequest) (rs : List MediaRequest) (r : MediaRequest)
    → KeepsKey f
    → get m c rs ≡ some r
    → get m c (update m c f rs) ≡ some (f r)
unfolding get update
get-update m c f [] r keep e = cc
get-update m c f (q ∷ rs) r keep e = ground (arith, keep q, get-update m c f rs r keep)

module _ (m c : String) (r : MediaRequest) where
  pub get-update_fixed :
      (k d : String) (f : MediaRequest → MediaRequest) (rs : List MediaRequest)
      → KeepsKey f
      → f r ≡ r
      → get m c rs ≡ some r
      → get m c (update k d f rs) ≡ some r
  unfolding get update
  get-update_fixed k d f [] keep same e = cc
  get-update_fixed k d f (q ∷ rs) keep same e =
      ground (arith, keep q, get-update_fixed k d f rs keep same)

  pub get-map_fixed :
      (f : MediaRequest → MediaRequest) (rs : List MediaRequest)
      → KeepsKey f
      → f r ≡ r
      → get m c rs ≡ some r
      → get m c (map f rs) ≡ some r
  unfolding get
  get-map_fixed f [] keep same e = cc
  get-map_fixed f (q ∷ rs) keep same e = ground (arith, keep q, get-map_fixed f rs keep same)

  pub get-append : (rs qs : List MediaRequest) → get m c rs ≡ some r → get m c (rs ++ qs) ≡ some r
  unfolding get
  get-append [] qs e = cc
  get-append (q ∷ rs) qs e = ground (arith, get-append rs qs)

  -- A change under another key leaves the row.
  pub get-update_other :
      (k d : String) (f : MediaRequest → MediaRequest) (rs : List MediaRequest)
      → KeepsKey f
      → (str_eq k m && str_eq d c) ≡ false
      → get m c rs ≡ some r
      → get m c (update k d f rs) ≡ some r
  unfolding get update
  get-update_other k d f [] keep other e = cc
  get-update_other k d f (q ∷ rs) keep other e = ground (
    arith,
    keep q,
    get-update_other k d f rs keep other,
    eq_iff q.message_id k,
    eq_iff q.chat_jid d,
    eq_iff q.message_id m,
    eq_iff q.chat_jid c,
    eq_iff k m,
    eq_iff d c,
  )

  enqueue_failed :
      (k d : String) (now : ℕ) (rs : List MediaRequest)
      → r.state ≡ failed
      → get m c rs ≡ some r
      → get m c (enqueue k d now rs).0 ≡ some r
  unfolding enqueue upsert
  enqueue_failed k d now rs f e = elim (Option-cases (get k d rs)) [
    | inl new ↦ rw (new, enqueue, upsert) (get-append rs _ e)
    | inr (q, old) ↦
        rw (old, enqueue, upsert)
          (get-update_fixed k d (reopened now) rs (reopened-KeepsKey now) (reopened_failed now f) e)
  ]

  retry_failed :
      (k d err : String) (max_attempts now : ℕ) (s : Store)
      → r.state ≡ failed
      → get m c s.requests ≡ some r
      → get m c (mark_retry k d err max_attempts now s).requests ≡ some r
  unfolding mark_retry
  retry_failed k d err max_attempts now s f e =
      get-update_fixed k d _ s.requests (λ q. ground arith) (ground arith) e

  expire_failed :
      (cutoff max_attempts now : ℕ) (s : Store)
      → r.state ≡ failed
      → get m c s.requests ≡ some r
      → get m c (expire_sent cutoff max_attempts now s).requests ≡ some r
  unfolding expire_sent is_unanswered
  expire_failed cutoff max_attempts now s f e =
      get-map_fixed _ s.requests (λ q. ground arith) (ground arith) e

  run_failed :
      (ops : List Background) (s : Store)
      → r.state ≡ failed
      → get m c s.requests ≡ some r
      → get m c (run ops s).requests ≡ some r
  unfolding run
  run_failed [] s f e = e
  run_failed (enqueues k d now ∷ ops) s f e =
      run_failed ops _ f (enqueue_failed k d now s.requests f e)
  run_failed (retries k d err n now ∷ ops) s f e =
      run_failed ops _ f (retry_failed k d err n now s f e)
  run_failed (expires cutoff n now ∷ ops) s f e =
      run_failed ops _ f (expire_failed cutoff n now s f e)

-- A failed request is closed for the background loop: enqueueing it again, late answers of the
-- phone that can be retried, and expiry leave its row exactly as it is, in any order and number,
-- for any request of the table, and the row is never due.
pub failed_terminal :
    (m c : String) (r : MediaRequest) (ops : List Background) (s : Store)
    → r.state ≡ failed
    → get m c s.requests ≡ some r
    → (get m c (run ops s).requests ≡ some r) × ((retry_before : ℕ) → is_due retry_before r ≡ false)
unfolding is_due
failed_terminal m c r ops s f e = (run_failed m c r ops s f e, λ retry_before. ground arith)
