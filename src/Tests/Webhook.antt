-- ===== src/Tests/Webhook.antt =====
-- Instances for whatsapp-bridge/internal/webhook.
use whatsapp_mcp_pro.Base.{
  ℕ, zero, suc, ◌+◌, ◌<◌, ◌≡◌, refl, inr, List, [], ◌∷◌, Option, none, Bool, true, false, String,
  arith, str_eq, All, count, ◌==◌, ◌&&◌, length, ltb, if◌then◌else◌,
}
use whatsapp_mcp_pro.Webhook.Triggers.{
  WebhookConfig, Message, all, event, exact, first, Delivery, matches_string, matches_type,
  matches_trigger, matches_triggers, deliver_matched, process_message, deliver_event, event_trigger,
  asks_for,
}
use whatsapp_mcp_pro.Webhook.Triggers.Sound.{
  ForMessage, OptedIn, is_wanted, process_message-is_wanted, process_message-ForMessage,
  deliver_event-OptedIn,
}
use whatsapp_mcp_pro.Webhook.Delivery.{
  Exchange, request_failed, answered, send_http_request, deliver_webhook,
}
use whatsapp_mcp_pro.Webhook.Delivery.Retries.{EndsAfter, deliver_webhook-EndsAfter}

abbrev same : String → String
same text = text

abbrev is_part : String → String → Bool
is_part text part = str_eq text part

abbrev no_regex : String → String → Option Bool
no_regex pattern_ text = none

abbrev every_message : WebhookConfig
every_message = record {
  id = 1;
  enabled = true;
  triggers =
      record { trigger_type = all; trigger_value = ""; match_type = exact; enabled = true } ∷ [];
}

abbrev edits : WebhookConfig
edits = record {
  id = 2;
  enabled = true;
  triggers =
      record {
        trigger_type = event;
        trigger_value = "message_edited";
        match_type = exact;
        enabled = true;
      }
      ∷ [];
}

abbrev configs : List WebhookConfig
configs = every_message ∷ edits ∷ record every_message { enabled = false } ∷ []

abbrev message : Message
message = record {
  chat = "49151@s.whatsapp.net";
  sender_jid = "49151@s.whatsapp.net";
  sender_user = "49151";
  content = "hello";
  media = "";
}

-- The first configuration takes the message, the second the edit.
one_message : length (process_message same is_part no_regex message [] configs) ≡ 1
unfolding process_message matches_triggers matches_trigger matches_type deliver_matched first
one_message = refl

one_edit : length (deliver_event same is_part no_regex "message_edited" configs) ≡ 1
unfolding deliver_event event_trigger asks_for matches_string first
one_edit = refl

process_message-is_wanted_example :
    count (λ (d : Delivery). d.0.id == 1) (process_message same is_part no_regex message [] configs)
    ≡ count
        (λ (c : WebhookConfig). c.id == 1 && is_wanted same is_part no_regex message [] c)
        configs
process_message-is_wanted_example =
    process_message-is_wanted same is_part no_regex (λ c. c.id == 1) message [] configs

process_message-ForMessage_example :
    All
      (ForMessage same is_part no_regex message [])
      (process_message same is_part no_regex message [] configs)
process_message-ForMessage_example =
    process_message-ForMessage same is_part no_regex message [] configs

deliver_event-OptedIn_example :
    All
      (OptedIn same is_part no_regex "message_edited")
      (deliver_event same is_part no_regex "message_edited" configs)
deliver_event-OptedIn_example = deliver_event-OptedIn same is_part no_regex "message_edited" configs

-- Two failures, then an answer.
abbrev respond : ℕ → Exchange
respond attempt =
    if ltb attempt 2 then request_failed else if ltb attempt 3 then answered 503 else answered 204

third_succeeds : (i : ℕ) → i < 2 → (send_http_request (respond (i + 1))).0 ≡ false
unfolding send_http_request
third_succeeds zero h = refl
third_succeeds (suc zero) h = refl
third_succeeds (suc (suc i)) h = absurd (omega arith)

deliver_webhook-EndsAfter_example : EndsAfter respond 2 (deliver_webhook true true respond)
unfolding send_http_request
deliver_webhook-EndsAfter_example =
    deliver_webhook-EndsAfter respond 2 (omega arith) third_succeeds (inr refl)
