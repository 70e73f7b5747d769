-- ===== src/Webhook/Triggers/Sound.antt =====
-- What the deliveries of a message and of an event have in common with the configurations.
use whatsapp_mcp_pro.Base.{
  ◌≡◌, refl, sym, subst, if_ind, inl, inr, List, [], ◌∷◌, Option, some, Bool, true, false, not,
  ◌&&◌, ◌||◌, count, String, arith, if◌then◌else◌, is_some, All, Option-cases, Bool-cases,
}
use whatsapp_mcp_pro.Webhook.Triggers.{
  WebhookTrigger, WebhookConfig, Message, TriggerType, all, chat_jid, sender, keyword, media_type,
  event, unknown_type, is_event, first, Delivery, MatchType, matches_string, matches_type,
  matches_trigger, matches_triggers, deliver_matched, process_message, asks_for, event_trigger,
  deliver_event,
}

first-passes : {A : Type 0} (p : A → Bool) (xs : List A) (x : A) → first p xs ≡ some x → p x ≡ true
unfolding first
first-passes p [] x e = absurd (ground (arith, e))
first-passes p (y ∷ ys) x e = ground (arith, e, first-passes p ys x)

module _ (to_lower : String → String) (has : String → String → Bool)
    (match_regex : String → String → Option Bool) where
  -- An enabled configuration, one of whose triggers matches.
  abbrev Matched : Message → List String → WebhookConfig → Type 0
  Matched msg jids c =
      (c.enabled ≡ true)
      × (is_some (first (matches_trigger to_lower has match_regex msg jids) c.triggers) ≡ true)

  matches_triggers-Matched :
      (msg : Message) (jids : List String) (cs : List WebhookConfig)
      → All (Matched msg jids) (matches_triggers to_lower has match_regex msg jids cs)
  unfolding matches_triggers
  matches_triggers-Matched msg jids [] = tt
  matches_triggers-Matched msg jids (c ∷ cs) =
      let rest = matches_triggers-Matched msg jids cs in
      let found = is_some (first (matches_trigger to_lower has match_regex msg jids) c.triggers) in
      let others = matches_triggers to_lower has match_regex msg jids cs in
      let keep = λ (b : Bool). if b then c ∷ others else others in
      if_ind (All (Matched msg jids)) (not c.enabled) others (keep found) rest λ on.
        elim (Bool-cases found) [
          | inr missing ↦ subst (λ b. All (Matched msg jids) (keep b)) (sym missing) rest
          | inl there ↦
              subst (λ b. All (Matched msg jids) (keep b)) (sym there)
                ((ground (arith, on), there), rest)
        ]

  -- A configuration that a message is due to: it is enabled, and so is one of its triggers that
  -- accepts the message.
  abbrev pub accepts : Message → List String → List WebhookTrigger → Bool
  accepts msg jids [] = false
  accepts msg jids (t ∷ ts) =
      t.enabled
        && matches_type to_lower has match_regex t.trigger_type t.trigger_value t.match_type msg
            jids
      || accepts msg jids ts

  abbrev pub is_wanted : Message → List String → WebhookConfig → Bool
  is_wanted msg jids c = c.enabled && accepts msg jids c.triggers

  first-accepts :
      (msg : Message) (jids : List String) (ts : List WebhookTrigger)
      → is_some (first (matches_trigger to_lower has match_regex msg jids) ts) ≡ accepts msg jids ts
  unfolding first matches_trigger
  first-accepts msg jids [] = refl
  first-accepts msg jids (t ∷ ts) = ground (arith, first-accepts msg jids ts)

  -- For any test of configurations, a message is delivered to as many configurations that pass it
  -- as there are configurations that pass it and are enabled with an enabled trigger that accepts
  -- the message: each of those is served exactly once, and no other.
  pub process_message-is_wanted :
      (pick : WebhookConfig → Bool) (msg : Message) (jids : List String) (cs : List WebhookConfig)
      → count (λ (d : Delivery). pick d.0) (process_message to_lower has match_regex msg jids cs)
        ≡ count (λ c. pick c && is_wanted msg jids c) cs
  unfolding process_message matches_triggers deliver_matched
  process_message-is_wanted pick msg jids [] = refl
  process_message-is_wanted pick msg jids (c ∷ cs) =
      let ih = process_message-is_wanted pick msg jids cs in
      let known = first-accepts msg jids c.triggers in
      elim (Bool-cases c.enabled) [
        | inr off ↦ ground (arith, off, ih)
        | inl on ↦
            elim (Option-cases
              (first (matches_trigger to_lower has match_regex msg jids) c.triggers)) [
                | inl missing ↦ ground (arith, on, missing, ih, known)
                | inr (t, found) ↦ ground (arith, on, found, ih, known)
              ]
      ]

  -- A delivery of a message: the configuration and the trigger are enabled, the trigger matches,
  -- and it is not an event trigger.
  abbrev pub ForMessage : Message → List String → Delivery → Type 0
  ForMessage msg jids d =
      (d.0.enabled ≡ true)
      × (d.1.enabled ≡ true)
      × (is_event d.1.trigger_type ≡ false)
      × (matches_trigger to_lower has match_regex msg jids d.1 ≡ true)

  matches-ForMessage :
      (msg : Message) (jids : List String) (kind : TriggerType) (value : String) (how : MatchType)
      → matches_type to_lower has match_regex kind value how msg jids ≡ true
      → is_event kind ≡ false
  unfolding matches_type
  matches-ForMessage msg jids event value how e = absurd (ground (arith, e))
  matches-ForMessage msg jids all value how e = refl
  matches-ForMessage msg jids chat_jid value how e = refl
  matches-ForMessage msg jids sender value how e = refl
  matches-ForMessage msg jids keyword value how e = refl
  matches-ForMessage msg jids media_type value how e = refl
  matches-ForMessage msg jids (unknown_type t) value how e = refl

  trigger_parts :
      (msg : Message) (jids : List String) (t : WebhookTrigger)
      → matches_trigger to_lower has match_regex msg jids t ≡ true
      → (t.enabled ≡ true)
        × (matches_type to_lower has match_regex t.trigger_type t.trigger_value t.match_type msg
              jids
            ≡ true)
  unfolding matches_trigger
  trigger_parts msg jids t e = ground (arith, e)

  deliver_matched-ForMessage :
      (msg : Message) (jids : List String) (cs : List WebhookConfig)
      → All (Matched msg jids) cs
      → All (ForMessage msg jids) (deliver_matched to_lower has match_regex msg jids cs)
  unfolding deliver_matched
  deliver_matched-ForMessage msg jids [] m = tt
  deliver_matched-ForMessage msg jids (c ∷ cs) m =
      let p = matches_trigger to_lower has match_regex msg jids in
      elim (Option-cases (first p c.triggers)) [
        | inl missing ↦ absurd (ground (arith, missing, m.0))
        | inr (t, found) ↦
            let passes = first-passes p c.triggers t found in
            let (on, kind) = trigger_parts msg jids t passes in
            rw (found, deliver_matched)
              (
                (
                  m.0.0,
                  on,
                  matches-ForMessage msg jids t.trigger_type t.trigger_value t.match_type kind,
                  passes,
                ),
                deliver_matched-ForMessage msg jids cs m.1,
              )
      ]

  -- Every delivery of a message is for an enabled configuration, by an enabled trigger that matches
  -- the message and that is not an event trigger.
  pub process_message-ForMessage :
      (msg : Message) (jids : List String) (cs : List WebhookConfig)
      → All (ForMessage msg jids) (process_message to_lower has match_regex msg jids cs)
  unfolding process_message
  process_message-ForMessage msg jids cs =
      deliver_matched-ForMessage msg jids _ (matches_triggers-Matched msg jids cs)

  -- A delivery of an event: the configuration is enabled, and the trigger is an enabled event
  -- trigger whose value matches the type of the event.
  abbrev pub OptedIn : String → Delivery → Type 0
  OptedIn event_type d =
      (d.0.enabled ≡ true)
      × (d.1.enabled ≡ true)
      × (is_event d.1.trigger_type ≡ true)
      × (matches_string to_lower has match_regex event_type d.1.trigger_value d.1.match_type ≡ true)

  event_trigger-OptedIn :
      (event_type : String) (c : WebhookConfig) (t : WebhookTrigger)
      → event_trigger to_lower has match_regex c event_type ≡ some t
      → OptedIn event_type (c, t)
  unfolding event_trigger asks_for
  event_trigger-OptedIn event_type c t e =
      ground (arith, e, first-passes (asks_for to_lower has match_regex event_type) c.triggers t)

  -- Change events are opt-in: every delivery of an event is for an enabled configuration, by an
  -- enabled event trigger whose value matches the type of the event.
  pub deliver_event-OptedIn :
      (event_type : String) (cs : List WebhookConfig)
      → All (OptedIn event_type) (deliver_event to_lower has match_regex event_type cs)
  unfolding deliver_event
  deliver_event-OptedIn event_type [] = tt
  deliver_event-OptedIn event_type (c ∷ cs) =
      elim (Option-cases (event_trigger to_lower has match_regex c event_type)) [
        | inl not_asked ↦ rw (not_asked, deliver_event) (deliver_event-OptedIn event_type cs)
        | inr (t, asked) ↦
            rw (asked, deliver_event)
              (event_trigger-OptedIn event_type c t asked, deliver_event-OptedIn event_type cs)
      ]
