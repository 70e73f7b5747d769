-- ===== src/Send/Handler.antt =====
-- `runIdempotentSend` of whatsapp-bridge/internal/api/send.go. The send itself, `do`, is a
-- parameter: it is given the message ID of an earlier attempt, and its answer says which ID it
-- handed to `beforeDispatch`, if any, and what it produced. `mark_replay` adds the replay flag to
-- a stored JSON text. The payload's hash and the scope, endpoint + "|" + recipient, are taken as
-- computed.
pub mod Once
use Prim.Native.String.{len}
use whatsapp_mcp_pro.Base.{
  ℕ, List, [], ◌∷◌, Option, none, some, Bool, true, false, not, ◌&&◌, String, str_eq, ltb, leb,
  ◌==◌, if◌then◌else◌,
}
use whatsapp_mcp_pro.Send.Idempotency.{
  Status, done, failed, is_done, IdempotencyRecord, Table, Faults, Claim, owned, held, store_error,
  claim, set_message_id, finish,
}

abbrev pub max_idempotency_key_len : ℕ
max_idempotency_key_len = 255

-- `sendOutcome`, with its body as the JSON text that is written.
pub record SendOutcome : Type 0 where
  pub status : ℕ
  pub body : String
  pub message_id : String

pub record Attempt : Type 0 where
  pub dispatched : Option String
  pub outcome : SendOutcome

pub data ReplyBody : Type 0 where
  outcome_body stored_body : String → ReplyBody
  key_too_long store_failed payload_mismatch still_sending : ReplyBody

pub record Reply : Type 0 where
  pub status : ℕ
  pub body : ReplyBody

-- A request: its key, scope and payload hash, the clock when it is claimed and when it is finished,
-- and the statements that the store refuses.
pub record SendCall : Type 0 where
  pub key : String
  pub scope : String
  pub hash : String
  pub claimed_at : ℕ
  pub finished_at : ℕ
  pub faults : Faults
  pub set_id_fails : Bool
  pub finish_fails : Bool

-- What a request leaves: the table, the answer, and the prior message ID of the attempt, if one was
-- made.
pub record Handled : Type 0 where
  pub table : Table
  pub reply : Reply
  pub attempted : Option String

abbrev pub is_success : ℕ → Bool
is_success code = leb 200 code && ltb code 300

-- The table after the hook's update, if the hook was called.
unfoldable pub after_dispatch : SendCall → Option String → Table → Table
after_dispatch call none t = t
after_dispatch call (some id) t =
    if call.set_id_fails then t else set_message_id call.key call.scope id t

-- The table after an attempt: the hook's update, then the outcome.
unfoldable pub settle : SendCall → Attempt → Table → Table
settle call a t =
    let dispatched = after_dispatch call a.dispatched t in
    if call.finish_fails
    then dispatched
    else finish call.key call.scope (if is_success a.outcome.status then done else failed)
        a.outcome.message_id a.outcome.status a.outcome.body call.finished_at dispatched

module _ (mark_replay : String → String) where
  -- `writeReplay`
  unfoldable pub write_replay : IdempotencyRecord → Reply
  write_replay r = record {
    status = if r.http_status == 0 then 200 else r.http_status;
    body = stored_body (mark_replay r.response);
  }

  -- The `switch` on a key that is not owned.
  unfoldable pub refuse : String → IdempotencyRecord → Reply
  refuse hash r =
      if not (str_eq r.payload_hash hash)
      then record { status = 422; body = payload_mismatch }
      else if is_done r.status
      then write_replay r
      else record { status = 409; body = still_sending }

  unfoldable pub run_idempotent_send : (String → Attempt) → SendCall → Table → Handled
  run_idempotent_send send call t =
      let claimed = claim call.faults call.key call.scope call.hash call.claimed_at t in
      if str_eq call.key ""
      then record {
        table = t;
        reply = record {
          status = (send "").outcome.status;
          body = outcome_body (send "").outcome.body;
        };
        attempted = some "";
      }
      else if ltb max_idempotency_key_len (len call.key)
      then record {
        table = t;
        reply = record { status = 400; body = key_too_long };
        attempted = none;
      }
      else elim (claimed.1) [
        | store_error ↦ record {
          table = claimed.0;
          reply = record { status = 500; body = store_failed };
          attempted = none;
        }
        | held r ↦ record { table = claimed.0; reply = refuse call.hash r; attempted = none }
        | owned r ↦
            let a = send r.message_id in
            record {
              table = settle call a claimed.0;
              reply = record { status = a.outcome.status; body = outcome_body a.outcome.body };
              attempted = some r.message_id;
            }
      ]
