-- ===== src/MediaRetry/Requests.antt =====
-- The tables media_requests and media_retry_receipts of whatsapp-bridge/internal/database/
-- media_requests.go, as lists of rows. (message_id, chat_jid) is the primary key of the first.
-- Stored times are whole Unix seconds (`dbTime`). A cutoff before the epoch is 0, which each
-- comparison below treats like a negative one.
pub mod Moves
use Prim.Native.Nat.{Ordering}
use Prim.Native.String.{compare}
use whatsapp_mcp_pro.Base.{
  ℕ, ◌+◌, ◌-◌, ◌/◌, ◌*◌, List, [], ◌∷◌, ◌++◌, map, Option, none, some, Bool, true, false, not, ◌&&◌,
  ◌||◌, String, str_eq, ltb, leb, ◌==◌, if◌then◌else◌, filter, take, count,
}

abbrev pub second : ℕ
second = 1_000_000_000

-- `dbTime`
abbrev pub db_time : ℕ → ℕ
db_time t = t / second

pub data State : Type 0 where
  pending sent succeeded failed : State

abbrev pub is_pending : State → Bool
is_pending pending = true
is_pending _ = false

abbrev pub is_sent : State → Bool
is_sent sent = true
is_sent _ = false

abbrev pub is_succeeded : State → Bool
is_succeeded succeeded = true
is_succeeded _ = false

abbrev pub is_failed : State → Bool
is_failed failed = true
is_failed _ = false

pub record MediaRequest : Type 0 where
  pub message_id : String
  pub chat_jid : String
  pub state : State
  pub attempts : ℕ
  pub last_error : String
  pub last_attempt_at : Option ℕ
  pub created_at : ℕ
  pub updated_at : ℕ

pub record Store : Type 0 where
  pub requests : List MediaRequest
  pub receipts : List ℕ

abbrev pub is_row : String → String → MediaRequest → Bool
is_row message chat r = str_eq r.message_id message && str_eq r.chat_jid chat

-- `GetMediaRequest`
unfoldable pub get : String → String → List MediaRequest → Option MediaRequest
get message chat [] = none
get message chat (r ∷ rs) = if is_row message chat r then some r else get message chat rs

-- `UPDATE … WHERE message_id = ? AND chat_jid = ?`
unfoldable pub update :
    String → String → (MediaRequest → MediaRequest) → List MediaRequest → List MediaRequest
update message chat f [] = []
update message chat f (r ∷ rs) =
    (if is_row message chat r then f r else r) ∷ update message chat f rs

-- `INSERT … ON CONFLICT DO UPDATE`: a new row, or an update of the one that is there.
unfoldable pub upsert :
    MediaRequest → (MediaRequest → MediaRequest) → List MediaRequest → List MediaRequest
upsert new f rs = elim (get new.message_id new.chat_jid rs) [
  | none ↦ rs ++ new ∷ []
  | some r ↦ update new.message_id new.chat_jid f rs
]

-- The row of `EnqueueMediaRequest`, and its update of a succeeded one.
unfoldable pub reopened : ℕ → MediaRequest → MediaRequest
reopened now r =
    if is_succeeded r.state
    then record r { state = pending; attempts = 0; last_error = ""; updated_at = db_time now }
    else r

-- `EnqueueMediaRequest`: whether a request was created or reopened.
unfoldable pub enqueue : String → String → ℕ → List MediaRequest → List MediaRequest × Bool
enqueue message chat now rs = (
  upsert
      (record {
        message_id = message;
        chat_jid = chat;
        state = pending;
        attempts = 0;
        last_error = "";
        last_attempt_at = none;
        created_at = db_time now;
        updated_at = db_time now;
      })
      (reopened now) rs,
  elim (get message chat rs) [ none ↦ true | some r ↦ is_succeeded r.state ],
)

-- The WHERE clause of `DueMediaRequests`.
unfoldable pub is_due : ℕ → MediaRequest → Bool
is_due retry_before r = is_pending r.state && elim (r.last_attempt_at) as (λ _. Bool) [
  | none ↦ true
  | some t ↦ ltb t (db_time retry_before)
]

-- Its ORDER BY: by creation, then by message.
unfoldable pub comes_before : MediaRequest → MediaRequest → Bool
comes_before r q =
    ltb r.created_at q.created_at
    || r.created_at == q.created_at
      && elim (compare r.message_id q.message_id) as (λ _. Bool) [ Ordering.gt ↦ false | _ ↦ true ]

unfoldable pub insert_ordered : MediaRequest → List MediaRequest → List MediaRequest
insert_ordered r [] = r ∷ []
insert_ordered r (q ∷ qs) = if comes_before r q then r ∷ q ∷ qs else q ∷ insert_ordered r qs

unfoldable pub order : List MediaRequest → List MediaRequest
order [] = []
order (r ∷ rs) = insert_ordered r (order rs)

-- `DueMediaRequests`
unfoldable pub due : ℕ → ℕ → List MediaRequest → List MediaRequest
due limit retry_before rs = take limit (order (filter (is_due retry_before) rs))

-- `OpenMediaRequestsForMessage`
unfoldable pub open_for_message : String → List MediaRequest → List MediaRequest
open_for_message message =
    filter (λ r. str_eq r.message_id message && (is_pending r.state || is_sent r.state))

-- `CountMediaRetryReceiptsSince`
unfoldable pub count_receipts_since : ℕ → List ℕ → ℕ
count_receipts_since since = count (λ t. leb (db_time since) t)

abbrev pub receipt_retention : ℕ
receipt_retention = 24 * 3600

-- The update of `MarkMediaRequestSent`.
unfoldable pub sent_row : ℕ → MediaRequest → MediaRequest
sent_row now r = record r {
  state = sent;
  attempts = r.attempts + 1;
  last_error = "";
  last_attempt_at = some (db_time now);
  updated_at = db_time now;
}

-- `MarkMediaRequestSent`, one transaction: the row, the receipt, and the old receipts.
unfoldable pub mark_sent : String → String → ℕ → Store → Store
mark_sent message chat now s = record {
  requests =
      upsert
        (record {
          message_id = message;
          chat_jid = chat;
          state = sent;
          attempts = 1;
          last_error = "";
          last_attempt_at = some (db_time now);
          created_at = db_time now;
          updated_at = db_time now;
        })
        (sent_row now) s.requests;
  receipts =
      filter (λ t. leb (db_time now) (t + receipt_retention)) (s.receipts ++ db_time now ∷ []);
}

abbrev pub out_of_attempts : ℕ → ℕ → State
out_of_attempts attempts max_attempts = if leb max_attempts attempts then failed else pending

-- `MarkMediaRequestSendError`
unfoldable pub mark_send_error : String → String → String → ℕ → ℕ → Store → Store
mark_send_error message chat err max_attempts now s = record s {
  requests =
      update message chat
        (λ r. record r {
          attempts = r.attempts + 1;
          last_error = err;
          updated_at = db_time now;
          state = out_of_attempts (r.attempts + 1) max_attempts;
        })
        s.requests;
}

-- `MarkMediaRequestSucceeded` and `MarkMediaRequestFailed`
unfoldable pub mark_succeeded : String → String → ℕ → Store → Store
mark_succeeded message chat now s = record s {
  requests =
      update message chat
        (λ r. record r { state = succeeded; last_error = ""; updated_at = db_time now }) s.requests;
}

unfoldable pub mark_failed : String → String → String → ℕ → Store → Store
mark_failed message chat err now s = record s {
  requests =
      update message chat
        (λ r. record r { state = failed; last_error = err; updated_at = db_time now }) s.requests;
}

-- `MarkMediaRequestRetry`
unfoldable pub mark_retry : String → String → String → ℕ → ℕ → Store → Store
mark_retry message chat err max_attempts now s = record s {
  requests =
      update message chat
        (λ r.
          if is_pending r.state || is_sent r.state
          then record r {
            last_error = err;
            updated_at = db_time now;
            state = out_of_attempts r.attempts max_attempts;
          }
          else r)
        s.requests;
}

-- The WHERE clause of `ExpireSentMediaRequests`; a missing time is not before anything.
unfoldable pub is_unanswered : ℕ → MediaRequest → Bool
is_unanswered cutoff r =
    is_sent r.state
    && elim (r.last_attempt_at) as (λ _. Bool) [ none ↦ false | some t ↦ ltb t (db_time cutoff) ]

-- `ExpireSentMediaRequests`
unfoldable pub expire_sent : ℕ → ℕ → ℕ → Store → Store
expire_sent cutoff max_attempts now s = record s {
  requests =
      map
        (λ r.
          if is_unanswered cutoff r
          then record r {
            last_error = "no answer from the phone";
            updated_at = db_time now;
            state = out_of_attempts r.attempts max_attempts;
          }
          else r)
        s.requests;
}
