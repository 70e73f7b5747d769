-- ===== src/MediaRetry/Ask.antt =====
-- The synchronous ask of the download path, and what a phone's answer means, in whatsapp-bridge/
-- internal/whatsapp/mediaretry_queue.go. `not_available` is the text of whatsmeow's error for media
-- that is not on the phone.
pub mod Once
use whatsapp_mcp_pro.Base.{
  ℕ, ◌-◌, List, [], ◌∷◌, Option, none, some, Bool, true, false, not, ◌&&◌, ◌||◌, String, str_eq,
  ◌==◌, if◌then◌else◌,
}
use whatsapp_mcp_pro.MediaRetry.Requests.{
  db_time, State, sent, failed, is_failed, is_sent, MediaRequest, Store, get, count_receipts_since,
  mark_sent, mark_send_error, mark_failed, mark_retry, mark_succeeded, open_for_message,
}
use whatsapp_mcp_pro.MediaRetry.Queue.{hour, MediaRetryConfig, media_retry_budget}

pub data AskAnswer : Type 0 where
  receipt_sent store_error gone_from_phone in_flight over_budget send_failed : AskAnswer

-- What an ask meets: the statements that fail, the clock when receipts are counted and when the
-- outcome is recorded, and what the send returns.
pub record AskEnv : Type 0 where
  pub get_fails : Bool
  pub count_fails : Bool
  pub mark_fails : Bool
  pub now : ℕ
  pub at : ℕ
  pub error : Option String

pub record Asked : Type 0 where
  pub store : Store
  pub answer : AskAnswer
  pub asked : List ℕ

abbrev pub refused : Store → List ℕ → AskAnswer → Asked
refused s asked a = record { store = s; answer = a; asked = asked }

abbrev pub reason_not_found : String
reason_not_found = "phone answered NOT_FOUND"

-- The send and its record.
unfoldable pub send_receipt : MediaRetryConfig → String → String → AskEnv → Store → List ℕ → Asked
send_receipt cfg message chat e s asked = elim (e.error) [
  | some text ↦ record {
    store = if e.mark_fails then s else mark_send_error message chat text cfg.max_attempts e.at s;
    answer = send_failed;
    asked = asked;
  }
  | none ↦ record {
    store = if e.mark_fails then s else mark_sent message chat e.at s;
    answer = receipt_sent;
    asked = db_time e.at ∷ asked;
  }
]

-- The end of an ask: the budget is counted, then the receipt is sent.
unfoldable pub send_if_budget : MediaRetryConfig → String → String → AskEnv → Store → List ℕ → Asked
send_if_budget cfg message chat e s asked =
    if e.count_fails
    then refused s asked store_error
    else if media_retry_budget (count_receipts_since (e.now - hour) s.receipts) cfg.max_per_hour 1
        == 0
    then refused s asked over_budget
    else send_receipt cfg message chat e s asked

-- The answer of a refusal, or else what follows.
unfoldable pub unless_refused : Option AskAnswer → Store → List ℕ → Asked → Asked
unless_refused none s asked next = next
unless_refused (some a) s asked next = refused s asked a

module _ (not_available : String) where
  -- `isFinalMediaRetryReason`
  unfoldable pub is_final_media_retry_reason : String → Bool
  is_final_media_retry_reason reason = str_eq reason reason_not_found || str_eq reason not_available

  -- The `switch` on a request that is stored.
  unfoldable pub refusal : Option MediaRequest → Option AskAnswer
  refusal none = none
  refusal (some r) =
      if is_failed r.state && is_final_media_retry_reason r.last_error
      then some gone_from_phone
      else if is_sent r.state
      then some in_flight
      else none

  -- `askPhoneForMedia`
  unfoldable pub ask_phone_for_media :
      MediaRetryConfig → String → String → AskEnv → Store → List ℕ → Asked
  ask_phone_for_media cfg message chat e s asked =
      if e.get_fails
      then refused s asked store_error
      else unless_refused (refusal (get message chat s.requests)) s asked
          (send_if_budget cfg message chat e s asked)

-- The result that a phone reports; any other one carries the text that is recorded for it, "phone
-- answered" and its name.
pub data RetryResult : Type 0 where
  success not_found : RetryResult
  other_result : String → RetryResult

pub data Outcome : Type 0 where
  retry_success : Outcome
  retry_again retry_failed : String → Outcome

-- A decrypted notification, or the error of decrypting it.
pub data Answer : Type 0 where
  not_on_phone : Answer
  decrypt_error : String → Answer
  notification : RetryResult → String → Answer

-- `classifyMediaRetryAnswer`
unfoldable pub classify_media_retry_answer : String → Answer → Outcome
classify_media_retry_answer not_available not_on_phone = retry_failed not_available
classify_media_retry_answer not_available (decrypt_error text) = retry_again text
classify_media_retry_answer not_available (notification success path) =
    if str_eq path ""
    then retry_again "phone answered SUCCESS without a direct path"
    else retry_success
classify_media_retry_answer not_available (notification not_found path) =
    retry_failed reason_not_found
classify_media_retry_answer not_available (notification (other_result text) path) = retry_again text
