-- ===== src/Webhook/Delivery.antt =====
-- The retry loop of whatsapp-bridge/internal/webhook/delivery.go. What the endpoint answers to each
-- attempt is given, as is whether the payload can be written as JSON and whether its URL is accepted
-- (ValidateWebhookURL). `slept` is the time that the loop waits, in seconds.
pub mod Retries
use whatsapp_mcp_pro.Base.{
  ℕ, zero, suc, ◌+◌, ◌-◌, List, [], ◌∷◌, Bool, true, false, not, ◌&&◌, ◌||◌, ltb, leb, get_or,
  if◌then◌else◌,
}

-- The result of a request: none came about, or it was answered with a status.
pub data Exchange : Type 0 where
  request_failed : Exchange
  answered : ℕ → Exchange

-- `sendHTTPRequest`: its success and its status code.
unfoldable pub send_http_request : Exchange → Bool × ℕ
send_http_request request_failed = (false, 0)
send_http_request (answered status) = (leb 200 status && ltb status 300, status)

-- A row of the log, as far as it depends on the attempt.
pub record WebhookLog : Type 0 where
  pub attempt_count : ℕ
  pub response_status : ℕ
  pub delivered : Bool

pub record Delivered : Type 0 where
  pub logs : List WebhookLog
  pub slept : ℕ

abbrev pub max_retries : ℕ
max_retries = 5

abbrev pub backoff_intervals : List ℕ
backoff_intervals = 1 ∷ 2 ∷ 4 ∷ 8 ∷ 16 ∷ []

-- The loop of `DeliverWebhook`, with the attempts that are left.
unfoldable pub deliver_from : (ℕ → Exchange) → ℕ → ℕ → Delivered
deliver_from respond zero attempt = record { logs = []; slept = 0 }
deliver_from respond (suc left) attempt =
    let rest = deliver_from respond left (attempt + 1) in
    let sent = send_http_request (respond attempt) in
    let entry : WebhookLog = record {
      attempt_count = attempt;
      response_status = sent.1;
      delivered = sent.0;
    } in
    if sent.0 then record { logs = entry ∷ []; slept = 0 } else record {
      logs = entry ∷ rest.logs;
      slept =
          if ltb attempt max_retries
          then get_or backoff_intervals (attempt - 1) 0 + rest.slept
          else rest.slept;
    }

-- `DeliverWebhook`
unfoldable pub deliver_webhook : Bool → Bool → (ℕ → Exchange) → Delivered
deliver_webhook marshals url_accepted respond =
    if not marshals
    then record { logs = []; slept = 0 }
    else if not url_accepted
    then record { logs = []; slept = 0 }
    else deliver_from respond max_retries 1
