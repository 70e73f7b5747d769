-- ===== src/Webhook/Triggers.antt =====
-- Which webhooks a message or a change event goes to, in whatsapp-bridge/internal/webhook/manager.go.
-- Go's strings and regexp are given: `to_lower`, `contains` (the text, then the part), and
-- `match_regex` (the pattern, then the text), which is none on a bad pattern. The text of a trigger
-- type or match type is read as its constructor. The names that DeliverEvent fills in and the
-- payloads are left out; a delivery is a configuration and its trigger.
pub mod Sound
use whatsapp_mcp_pro.Base.{
  ℕ, List, [], ◌∷◌, Option, none, some, Bool, true, false, not, ◌&&◌, ◌||◌, String, str_eq,
  if◌then◌else◌, is_some,
}

pub data TriggerType : Type 0 where
  all chat_jid sender keyword media_type event : TriggerType
  unknown_type : String → TriggerType

pub data MatchType : Type 0 where
  exact contains regex : MatchType
  unknown_match : String → MatchType

pub record WebhookTrigger : Type 0 where
  pub trigger_type : TriggerType
  pub trigger_value : String
  pub match_type : MatchType
  pub enabled : Bool

pub record WebhookConfig : Type 0 where
  pub id : ℕ
  pub enabled : Bool
  pub triggers : List WebhookTrigger

-- What a trigger reads of a message: the chat's raw JID, the sender's JID and user part, the text,
-- and the media type.
pub record Message : Type 0 where
  pub chat : String
  pub sender_jid : String
  pub sender_user : String
  pub content : String
  pub media : String

abbrev pub is_event : TriggerType → Bool
is_event event = true
is_event _ = false

-- The first entry that passes a test.
unfoldable pub first {ℓ} : {A : Type ℓ} → (A → Bool) → List A → Option A
first p [] = none
first p (x ∷ xs) = if p x then some x else first p xs

unfoldable pub any_jid : (String → Bool) → List String → Bool
any_jid p [] = false
any_jid p (j ∷ js) = not (str_eq j "") && p j || any_jid p js

abbrev pub Delivery : Type 0
Delivery = WebhookConfig × WebhookTrigger

module _ (to_lower : String → String) (has : String → String → Bool)
    (match_regex : String → String → Option Bool) where
  -- `matchesString`
  unfoldable pub matches_string : String → String → MatchType → Bool
  matches_string text pattern_ exact = str_eq text pattern_
  matches_string text pattern_ contains = has (to_lower text) (to_lower pattern_)
  matches_string text pattern_ regex = elim (match_regex pattern_ text) [
    | none ↦ false
    | some b ↦ b
  ]
  matches_string text pattern_ (unknown_match t) = false

  -- The `switch` of `matchesTrigger`, on a trigger's type, with its value and match type.
  unfoldable pub matches_type : TriggerType → String → MatchType → Message → List String → Bool
  matches_type all value how msg jids = true
  matches_type chat_jid value how msg jids =
      any_jid (λ j. matches_string j value how) (msg.chat ∷ jids)
  matches_type sender value how msg jids =
      matches_string msg.sender_jid value how || matches_string msg.sender_user value how
  matches_type keyword value how msg jids = matches_string msg.content value how
  matches_type media_type value how msg jids = matches_string msg.media value how
  matches_type event value how msg jids = false
  matches_type (unknown_type t) value how msg jids = false

  -- An enabled trigger that `matchesTrigger` accepts.
  unfoldable pub matches_trigger : Message → List String → WebhookTrigger → Bool
  matches_trigger msg jids t =
      t.enabled && matches_type t.trigger_type t.trigger_value t.match_type msg jids

  -- `MatchesTriggers`: its inner loop stops at the first match.
  unfoldable pub matches_triggers : Message → List String → List WebhookConfig → List WebhookConfig
  matches_triggers msg jids [] = []
  matches_triggers msg jids (c ∷ cs) =
      let rest = matches_triggers msg jids cs in
      if not c.enabled
      then rest
      else if is_some (first (matches_trigger msg jids) c.triggers)
      then c ∷ rest
      else rest

  -- The loop of `ProcessMessage` over the matched configurations, each with its trigger.
  unfoldable pub deliver_matched : Message → List String → List WebhookConfig → List Delivery
  deliver_matched msg jids [] = []
  deliver_matched msg jids (c ∷ cs) = elim (first (matches_trigger msg jids) c.triggers) [
    | none ↦ deliver_matched msg jids cs
    | some t ↦ (c, t) ∷ deliver_matched msg jids cs
  ]

  unfoldable pub process_message : Message → List String → List WebhookConfig → List Delivery
  process_message msg jids cs = deliver_matched msg jids (matches_triggers msg jids cs)

  -- `eventTrigger`
  unfoldable pub asks_for : String → WebhookTrigger → Bool
  asks_for event_type t =
      t.enabled && is_event t.trigger_type && matches_string event_type t.trigger_value t.match_type

  unfoldable pub event_trigger : WebhookConfig → String → Option WebhookTrigger
  event_trigger c event_type =
      if not c.enabled then none else first (asks_for event_type) c.triggers

  -- The loop of `DeliverEvent`.
  unfoldable pub deliver_event : String → List WebhookConfig → List Delivery
  deliver_event event_type [] = []
  deliver_event event_type (c ∷ cs) = elim (event_trigger c event_type) [
    | none ↦ deliver_event event_type cs
    | some t ↦ (c, t) ∷ deliver_event event_type cs
  ]
