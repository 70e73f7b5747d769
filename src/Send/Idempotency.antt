-- ===== src/Send/Idempotency.antt =====
-- The table idempotency_keys of whatsapp-bridge/internal/database/send_state.go, as a list of rows.
-- (idem_key, scope) is its primary key, so that an UPDATE by both touches at most one row. Times
-- are Unix seconds. A statement that SQLite refuses changes nothing; which ones it refuses is given
-- by `Faults`.
pub mod Laws
pub mod Statements
pub mod Exclusion
use whatsapp_mcp_pro.Base.{
  ℕ, ◌+◌, ◌*◌, List, [], ◌∷◌, ◌++◌, map, Option, none, some, Bool, true, false, not, ◌&&◌, ◌||◌,
  String, str_eq, ltb, if◌then◌else◌, filter,
}

pub data Status : Type 0 where
  in_flight done failed : Status

abbrev pub is_in_flight : Status → Bool
is_in_flight in_flight = true
is_in_flight _ = false

abbrev pub is_done : Status → Bool
is_done done = true
is_done _ = false

abbrev pub is_failed : Status → Bool
is_failed failed = true
is_failed _ = false

-- `IdempotencyTTL` and `idempotencyStaleInFlight`, in seconds.
abbrev pub idempotency_ttl : ℕ
idempotency_ttl = 24 * 3600

abbrev pub idempotency_stale_in_flight : ℕ
idempotency_stale_in_flight = 300

pub record IdempotencyRecord : Type 0 where
  pub key : String
  pub scope : String
  pub payload_hash : String
  pub status : Status
  pub message_id : String
  pub http_status : ℕ
  pub response : String
  pub created_at : ℕ
  pub updated_at : ℕ

abbrev pub Table : Type 0
Table = List IdempotencyRecord

abbrev pub is_row : String → String → IdempotencyRecord → Bool
is_row key scope r = str_eq r.key key && str_eq r.scope scope

-- `SELECT … WHERE idem_key = ? AND scope = ?`
unfoldable pub get : String → String → Table → Option IdempotencyRecord
get key scope [] = none
get key scope (r ∷ t) = if is_row key scope r then some r else get key scope t

-- `UPDATE … WHERE idem_key = ? AND scope = ?`
unfoldable pub update : String → String → (IdempotencyRecord → IdempotencyRecord) → Table → Table
update key scope f [] = []
update key scope f (r ∷ t) = (if is_row key scope r then f r else r) ∷ update key scope f t

abbrev pub is_expired : ℕ → IdempotencyRecord → Bool
is_expired now r = ltb (r.created_at + idempotency_ttl) now

-- `DELETE … WHERE created_at < ?`
unfoldable pub purge : ℕ → Table → Table
purge now t = filter (λ r. not (is_expired now r)) t

-- The row that a first claim inserts.
unfoldable pub new_record : String → String → String → ℕ → IdempotencyRecord
new_record key scope payload_hash now = record {
  key = key;
  scope = scope;
  payload_hash = payload_hash;
  status = in_flight;
  message_id = "";
  http_status = 0;
  response = "";
  created_at = now;
  updated_at = now;
}

-- The rest of the WHERE clause of the second UPDATE: the same payload, and a failed or an abandoned
-- attempt.
unfoldable pub is_reclaimable : String → ℕ → IdempotencyRecord → Bool
is_reclaimable payload_hash now r =
    str_eq r.payload_hash payload_hash
    && (is_failed r.status
        || is_in_flight r.status && ltb (r.updated_at + idempotency_stale_in_flight) now)

unfoldable pub reclaim : String → ℕ → IdempotencyRecord → IdempotencyRecord
reclaim payload_hash now r =
    if is_reclaimable payload_hash now r
    then record r { status = in_flight; updated_at = now }
    else r

-- `INSERT OR IGNORE`, and whether it affected a row: not where the key has one.
unfoldable pub insert_or_ignore : String → String → String → ℕ → Table → Table × Bool
insert_or_ignore key scope payload_hash now t = elim (get key scope t) [
  | none ↦ (t ++ new_record key scope payload_hash now ∷ [], true)
  | some r ↦ (t, false)
]

-- The second UPDATE, and whether it affected a row.
unfoldable pub reclaim_row : String → String → String → ℕ → Table → Table × Bool
reclaim_row key scope payload_hash now t = (
  update key scope (reclaim payload_hash now) t,
  elim (get key scope t) [ none ↦ false | some r ↦ is_reclaimable payload_hash now r ],
)

-- Which statements of a claim SQLite refuses.
pub record Faults : Type 0 where
  pub purge_fails : Bool
  pub insert_fails : Bool
  pub update_fails : Bool
  pub get_fails : Bool

pub data Claim : Type 0 where
  owned held : IdempotencyRecord → Claim
  store_error : Claim

-- `ClaimIdempotencyKey`: `owned` when the caller may proceed. Its four statements are no
-- transaction; the first three arguments are what other requests do to the table between one of
-- them and the next.
unfoldable pub claim_among :
    (Table → Table)
    → (Table → Table)
    → (Table → Table)
    → Faults
    → String
    → String
    → String
    → ℕ
    → Table
    → Table × Claim
claim_among after_purge after_insert after_update f key scope payload_hash now t =
    let purged = purge now t in
    let inserted = insert_or_ignore key scope payload_hash now (after_purge purged) in
    let reclaimed = reclaim_row key scope payload_hash now (after_insert inserted.0) in
    let seen = after_update reclaimed.0 in
    if f.purge_fails
    then (t, store_error)
    else if f.insert_fails
    then (after_purge purged, store_error)
    else if inserted.1
    then (inserted.0, owned (new_record key scope payload_hash now))
    else if f.update_fails
    then (after_insert inserted.0, store_error)
    else if f.get_fails
    then (seen, store_error)
    else elim (get key scope seen) [
      | none ↦ (seen, store_error)
      | some r ↦ (seen, if reclaimed.1 then owned r else held r)
    ]

-- A claim whose statements no other request comes between.
unfoldable pub claim : Faults → String → String → String → ℕ → Table → Table × Claim
claim = claim_among (λ t. t) (λ t. t) (λ t. t)

-- `SetIdempotencyMessageID`
unfoldable pub set_message_id : String → String → String → Table → Table
set_message_id key scope message_id = update key scope (λ r. record r { message_id = message_id })

-- The row after `FinishIdempotencyKey`: an empty message ID keeps the stored one.
unfoldable pub finished : Status → String → ℕ → String → ℕ → IdempotencyRecord → IdempotencyRecord
finished status message_id http_status response now r = record r {
  status = status;
  message_id = if str_eq message_id "" then r.message_id else message_id;
  http_status = http_status;
  response = response;
  updated_at = now;
}

unfoldable pub finish : String → String → Status → String → ℕ → String → ℕ → Table → Table
finish key scope status message_id http_status response now =
    update key scope (finished status message_id http_status response now)
