-- ===== src/Send/Handler/Once.antt =====
-- A key is sent once: what retries of a request do after a success, and after a failure.
use Prim.Native.String.{len}
use whatsapp_mcp_pro.Base.{
  ℕ, ◌+◌, ◌≤◌, ◌≡◌, ◌≢◌, refl, ◌⊎◌, inl, inr, List, [], ◌∷◌, Option, none, some, true, false,
  String, str_eq, eq_iff, ltb, arith, if◌then◌else◌, Bool-cases, All,
}
use whatsapp_mcp_pro.Send.Idempotency.{
  done, failed, IdempotencyRecord, Table, Claim, owned, held, store_error, get, claim,
  set_message_id, finish, finished, idempotency_ttl,
}
use whatsapp_mcp_pro.Send.Idempotency.Laws.{get-update}
use whatsapp_mcp_pro.Send.Idempotency.Exclusion.{Settled, claim-Settled, owned-row}
use whatsapp_mcp_pro.Send.Handler.{
  Attempt, SendOutcome, SendCall, Handled, is_success, after_dispatch, settle, write_replay, refuse,
  run_idempotent_send, store_failed,
}

-- What the settled row of a finished attempt shows.
abbrev pub Records : String → String → SendOutcome → IdempotencyRecord → IdempotencyRecord → Type 0
Records key hash o r q =
    (q.status ≡ (if is_success o.status then done else failed))
    × (q.response ≡ o.body)
    × (q.http_status ≡ o.status)
    × (q.created_at ≡ r.created_at)
    × (q.payload_hash ≡ r.payload_hash)

module _ (call : SendCall) where
  after_dispatch-row :
      (d : Option String) (t : Table) (r : IdempotencyRecord)
      → get call.key call.scope t ≡ some r
      → (id : String) × (get call.key call.scope (after_dispatch call d t)
          ≡ some (record r { message_id = id }))
  unfolding after_dispatch set_message_id
  after_dispatch-row none t r e = (r.message_id, e)
  after_dispatch-row (some id) t r e = elim (Bool-cases call.set_id_fails) [
    | inl lost ↦ (r.message_id, ground arith)
    | inr kept ↦ (
      id,
      ground (
        arith,
        get-update call.key call.scope (λ (q : IdempotencyRecord). record q { message_id = id }) t r
            (λ q own. own) e,
      ),
    )
  ]

  settle-row :
      (a : Attempt) (t : Table) (r : IdempotencyRecord)
      → get call.key call.scope t ≡ some r
      → call.finish_fails ≡ false
      → (q : IdempotencyRecord) × (get call.key call.scope (settle call a t) ≡ some q)
        × Records call.key call.hash a.outcome r q
  unfolding settle finish finished
  settle-row a t r e stored =
      let (id, row) = after_dispatch-row a.dispatched t r e in
      let o = a.outcome in
      let f =
        finished (if is_success o.status then done else failed) o.message_id o.status o.body
          call.finished_at in
      (
        f (record r { message_id = id }),
        ground (
          arith,
          get-update call.key call.scope f (after_dispatch call a.dispatched t)
              (record r { message_id = id }) (λ q own. own) row,
        ),
        (refl, refl, refl, refl, refl),
      )

Claim-cases :
    (c : Claim)
    → ((r : IdempotencyRecord) × (c ≡ owned r)) ⊎ ((r : IdempotencyRecord) → c ≢ owned r)
Claim-cases (owned r) = inl (r, refl)
Claim-cases (held r) = inr (λ q e. cc)
Claim-cases store_error = inr (λ q e. cc)

-- A retry: the same key, scope and payload, claimed no later than `until`.
abbrev pub Retry : SendCall → ℕ → SendCall → Type 0
Retry first until call =
    (call.key ≡ first.key)
    × (call.scope ≡ first.scope)
    × (call.hash ≡ first.hash)
    × (call.claimed_at ≤ until)

module _ (mark_replay : String → String) (send : String → Attempt) where
  -- The requests of a list, one after the other.
  unfoldable pub handle_all : Table → List SendCall → List Handled
  handle_all t [] = []
  handle_all t (call ∷ calls) =
      let h = run_idempotent_send mark_replay send call t in h ∷ handle_all h.table calls

  -- Nothing is sent, and the answer is the stored one, or an error of the store.
  abbrev pub Replayed : IdempotencyRecord → Handled → Type 0
  Replayed q h =
      (h.attempted ≡ none)
      × ((h.reply ≡ record { status = 500; body = store_failed })
          ⊎ (h.reply ≡ write_replay mark_replay q))

  module _ (first : SendCall) (until : ℕ) (q : IdempotencyRecord)
      (named : str_eq first.key "" ≡ false) (short : ltb 255 (len first.key) ≡ false)
      (settled : Settled until q) (complete : q.status ≡ done)
      (same : q.payload_hash ≡ first.hash) where
    Retry-Replayed :
        (call : SendCall) (t : Table)
        → get first.key first.scope t ≡ some q
        → Retry first until call
        → (get first.key first.scope (run_idempotent_send mark_replay send call t).table ≡ some q)
          × Replayed q (run_idempotent_send mark_replay send call t)
    unfolding run_idempotent_send refuse
    Retry-Replayed call t row r = ground (
      arith,
      claim-Settled first.key first.scope until q settled call.faults first.hash call.claimed_at t
          row r.3,
      eq_iff q.payload_hash first.hash,
    )

    handle_all-Replayed :
        (calls : List SendCall) (t : Table)
        → get first.key first.scope t ≡ some q
        → All (Retry first until) calls
        → All (Replayed q) (handle_all t calls)
    unfolding handle_all
    handle_all-Replayed [] t row r = tt
    handle_all-Replayed (call ∷ calls) t row r =
        let (row', replayed) = Retry-Replayed call t row r.0 in
        (replayed, handle_all-Replayed calls _ row' r.1)

  attempt_owned :
      (call : SendCall) (t : Table) (id : String) (r : IdempotencyRecord)
      → str_eq call.key "" ≡ false
      → (claim call.faults call.key call.scope call.hash call.claimed_at t).1 ≡ owned r
      → (run_idempotent_send mark_replay send call t).attempted ≡ some id
      → (ltb 255 (len call.key) ≡ false)
        × (r.message_id ≡ id)
        × ((run_idempotent_send mark_replay send call t).table
            ≡ settle call
                (send id)
                (claim call.faults call.key call.scope call.hash call.claimed_at t).0)
  unfolding run_idempotent_send
  attempt_owned call t id r named own sent = ground arith

  attempt_needs_owned :
      (call : SendCall) (t : Table) (id : String)
      → str_eq call.key "" ≡ false
      → ((r : IdempotencyRecord)
          → (claim call.faults call.key call.scope call.hash call.claimed_at t).1 ≢ owned r)
      → (run_idempotent_send mark_replay send call t).attempted ≢ some id
  unfolding run_idempotent_send
  attempt_needs_owned call t id named other sent = grind arith

  -- A request with a key that sends with success, and whose outcome the store records, sends once:
  -- every later request with the same key, scope and payload, claimed up to 24 hours after the row
  -- was created, sends nothing, and is answered with the recorded outcome or, where the store
  -- fails, with a 500.
  pub retries_send_once :
      (first : SendCall) (t : Table) (id : String) (q : IdempotencyRecord) (calls : List SendCall)
      → str_eq first.key "" ≡ false
      → first.finish_fails ≡ false
      → (run_idempotent_send mark_replay send first t).attempted ≡ some id
      → is_success (send id).outcome.status ≡ true
      → get first.key first.scope (run_idempotent_send mark_replay send first t).table ≡ some q
      → All (Retry first (q.created_at + idempotency_ttl)) calls
      → All (Replayed q) (handle_all (run_idempotent_send mark_replay send first t).table calls)
        × (q.response ≡ (send id).outcome.body)
        × (q.http_status ≡ (send id).outcome.status)
  retries_send_once first t id q calls named stored sent ok row retries =
      let claimed = claim first.faults first.key first.scope first.hash first.claimed_at t in
      elim (Claim-cases claimed.1) [
        | inr other ↦ absurd (attempt_needs_owned first t id named other sent)
        | inl (r, own) ↦
            let (short, _, table) = attempt_owned first t id r named own sent in
            let (row_r, _, _, hash) =
              owned-row first.faults first.key first.scope first.hash first.claimed_at t r own in
            let (q', row', rec) = settle-row first (send id) claimed.0 r row_r stored in
            let same : q' ≡ q = ground (arith, row, row', table) in
            let until = q.created_at + idempotency_ttl in
            let complete : q.status ≡ done = ground (arith, rec) in
            let hash' : q.payload_hash ≡ first.hash = ground (arith, rec) in
            (
              handle_all-Replayed first until q named short (omega arith, inl complete) complete
                  hash' calls _ row retries,
              ground (arith, rec),
              ground (arith, rec),
            )
      ]
