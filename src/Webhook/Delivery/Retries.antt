-- ===== src/Webhook/Delivery/Retries.antt =====
-- How often a webhook is tried, and how long the tries take.
use whatsapp_mcp_pro.Base.{
  ℕ, zero, suc, ◌+◌, ◌^◌, ◌<◌, ◌≡◌, refl, ◌⊎◌, List, [], ◌∷◌, Bool, true, false, arith,
}
use whatsapp_mcp_pro.Webhook.Delivery.{
  Exchange, request_failed, answered, send_http_request, WebhookLog, Delivered, deliver_from,
  deliver_webhook,
}

-- The status that the log keeps of an exchange, 0 where none came about.
abbrev pub status_of : Exchange → ℕ
status_of request_failed = 0
status_of (answered status) = status

-- The log of `k` attempts that failed, from number `attempt` on, and of one more attempt.
abbrev pub log_of : (ℕ → Exchange) → ℕ → ℕ → Bool → List WebhookLog
log_of respond attempt zero last_delivered =
    record {
      attempt_count = attempt;
      response_status = status_of (respond attempt);
      delivered = last_delivered;
    }
    ∷ []
log_of respond attempt (suc k) last_delivered =
    record {
      attempt_count = attempt;
      response_status = status_of (respond attempt);
      delivered = false;
    }
    ∷ log_of respond (attempt + 1) k last_delivered

-- What is left of a delivery that ends with its attempt number `k + 1`.
abbrev pub EndsAfter : (ℕ → Exchange) → ℕ → Delivered → Type 0
EndsAfter respond k d =
    (d.logs ≡ log_of respond 1 k (send_http_request (respond (k + 1))).0) × (d.slept + 1 ≡ 2 ^ k)

send_http_request-status : (x : Exchange) → (send_http_request x).1 ≡ status_of x
unfolding send_http_request
send_http_request-status request_failed = refl
send_http_request-status (answered status) = refl

-- A delivery to an accepted URL stops at the first attempt that is answered with a 2xx status, or
-- after the fifth. With k failed attempts before it, the log holds the attempts 1 to k + 1 in this
-- order, each with its number and the status that answered it (0 for none), none but the last as
-- delivered, and that one exactly if it was answered with 2xx; and the loop has slept 2 ^ k - 1
-- seconds.
pub deliver_webhook-EndsAfter :
    (respond : ℕ → Exchange) (k : ℕ)
    → k < 5
    → ((i : ℕ) → i < k → (send_http_request (respond (i + 1))).0 ≡ false)
    → (k ≡ 4) ⊎ ((send_http_request (respond (k + 1))).0 ≡ true)
    → EndsAfter respond k (deliver_webhook true true respond)
unfolding deliver_webhook deliver_from
deliver_webhook-EndsAfter respond zero lt fails ends =
    ground (arith, ends, send_http_request-status (respond 1))
deliver_webhook-EndsAfter respond (suc zero) lt fails ends = ground (
  arith,
  ends,
  send_http_request-status (respond 1),
  send_http_request-status (respond 2),
  fails 0 (omega arith),
)
deliver_webhook-EndsAfter respond (suc (suc zero)) lt fails ends = ground (
  arith,
  ends,
  send_http_request-status (respond 1),
  send_http_request-status (respond 2),
  send_http_request-status (respond 3),
  fails 0 (omega arith),
  fails 1 (omega arith),
)
deliver_webhook-EndsAfter respond (suc (suc (suc zero))) lt fails ends = ground (
  arith,
  ends,
  send_http_request-status (respond 1),
  send_http_request-status (respond 2),
  send_http_request-status (respond 3),
  send_http_request-status (respond 4),
  fails 0 (omega arith),
  fails 1 (omega arith),
  fails 2 (omega arith),
)
deliver_webhook-EndsAfter respond (suc (suc (suc (suc zero)))) lt fails ends = ground (
  arith,
  ends,
  send_http_request-status (respond 1),
  send_http_request-status (respond 2),
  send_http_request-status (respond 3),
  send_http_request-status (respond 4),
  send_http_request-status (respond 5),
  fails 0 (omega arith),
  fails 1 (omega arith),
  fails 2 (omega arith),
  fails 3 (omega arith),
)
deliver_webhook-EndsAfter respond (suc (suc (suc (suc (suc k))))) lt fails ends =
    absurd (omega arith)
