-- ===== src/Antiban/Caps/Room.antt =====
-- What it means for a window that a check refuses nothing.
use whatsapp_mcp_pro.Base.{
  ℕ, ◌≤◌, ◌<◌, ◌≡◌, subst, List, Option, none, Bool, true, false, not, ◌&&◌, ℤ, pos, String, str_eq,
  eq_iff, arith,
}
use mathlib.Core.Bool.{false≢true}
use whatsapp_mcp_pro.Antiban.Config.{Config, SendClass, class_message, class_feedback, minute, hour}
use whatsapp_mcp_pro.Antiban.Window.{prune_before, window_full}
use whatsapp_mcp_pro.Antiban.Window.Track.{
  Tracks, Tracks-prune_before, length-prune_before, recent, window_full-none,
}
use whatsapp_mcp_pro.Antiban.Caps.{
  Cap, SendRequest, SendCaps, CapError, new_recipient_window, window_at, worse, consider,
  check_recipient, check_new_recipient, check_feedback_recipient, check_message, check_feedback,
  check_class,
}
use whatsapp_mcp_pro.Antiban.Caps.Slots.{
  Slot, global, new_recipients, feedback_global, recipient, feedback_recipient, span, window_of,
  counts,
}

-- The window that a cap reads for a chat, its configured limit, and its span.
abbrev pub slot_of : Cap → String → Slot
slot_of Cap.recipient_per_minute r = recipient r
slot_of Cap.recipient_per_hour r = recipient r
slot_of Cap.global_per_hour r = global
slot_of Cap.new_recipients_per_day r = new_recipients
slot_of Cap.feedback_per_minute r = feedback_recipient r
slot_of Cap.feedback_per_hour r = feedback_global

abbrev pub limit_of : Config → Cap → ℤ
limit_of cfg Cap.recipient_per_minute = cfg.recipient_max_per_minute
limit_of cfg Cap.recipient_per_hour = cfg.recipient_max_per_hour
limit_of cfg Cap.global_per_hour = cfg.global_max_per_hour
limit_of cfg Cap.new_recipients_per_day = cfg.new_recipients_per_day
limit_of cfg Cap.feedback_per_minute = cfg.feedback_max_per_minute
limit_of cfg Cap.feedback_per_hour = cfg.feedback_max_per_hour

abbrev pub window_length : Cap → ℕ
window_length Cap.recipient_per_minute = minute
window_length Cap.recipient_per_hour = hour
window_length Cap.global_per_hour = hour
window_length Cap.new_recipients_per_day = new_recipient_window
window_length Cap.feedback_per_minute = minute
window_length Cap.feedback_per_hour = hour

-- A refusal once considered stays: no refusal at the end means none in any window.
consider-none :
    (cap : Cap) (ts : List ℕ) (limit : ℤ) (window now : ℕ) (w : Option CapError)
    → (consider cap ts limit window now w).1 ≡ none
    → (w ≡ none) × (window_full (prune_before window now ts) limit window now ≡ none)
unfolding consider worse
consider-none cap ts limit window now w h = ground arith

-- What an absence of a refusal says of one window: pruned, it is not full.
abbrev NotFull : List ℕ → ℤ → ℕ → ℕ → Type 0
NotFull ts limit window now = window_full (prune_before window now ts) limit window now ≡ none

module _ (cfg : Config) (c : SendCaps) (r : String) (now : ℕ) (w : Option CapError) where
  check_recipient-none :
      (check_recipient cfg c r now w).1 ≡ none
      → (w ≡ none)
        × ((str_eq r "" ≡ false)
            → NotFull (window_at c.recipient r) cfg.recipient_max_per_hour hour now
              × NotFull
                  (prune_before hour now (window_at c.recipient r))
                  cfg.recipient_max_per_minute
                  minute
                  now)
  unfolding check_recipient consider
  check_recipient-none h = ground (
    arith,
    consider-none Cap.recipient_per_hour (window_at c.recipient r) cfg.recipient_max_per_hour hour
        now w,
    consider-none Cap.recipient_per_minute (prune_before hour now (window_at c.recipient r))
        cfg.recipient_max_per_minute minute now
        (consider Cap.recipient_per_hour (window_at c.recipient r) cfg.recipient_max_per_hour hour
          now w).1,
  )

  pub check_recipient-new_recipients :
      (check_recipient cfg c r now w).0.new_recipients ≡ c.new_recipients
  unfolding check_recipient
  check_recipient-new_recipients = ground arith

  check_feedback_recipient-none :
      (check_feedback_recipient cfg c r now w).1 ≡ none
      → (w ≡ none)
        × ((str_eq r "" ≡ false)
            → NotFull (window_at c.feedback_recipient r) cfg.feedback_max_per_minute minute now)
  unfolding check_feedback_recipient
  check_feedback_recipient-none h = ground (
    arith,
    consider-none Cap.feedback_per_minute (window_at c.feedback_recipient r)
        cfg.feedback_max_per_minute minute now w,
  )

check_new_recipient-none :
    (cfg : Config) (c : SendCaps) (fresh : Bool) (now : ℕ) (w : Option CapError)
    → (check_new_recipient cfg c fresh now w).1 ≡ none
    → (w ≡ none)
      × (fresh ≡ true
          → NotFull c.new_recipients cfg.new_recipients_per_day new_recipient_window now)
unfolding check_new_recipient
check_new_recipient-none cfg c false now w h = ground arith
check_new_recipient-none cfg c true now w h = ground (
  arith,
  consider-none Cap.new_recipients_per_day c.new_recipients cfg.new_recipients_per_day
      new_recipient_window now w,
)

module _ (cfg : Config) (c : SendCaps) (req : SendRequest) (now : ℕ) where
  -- A message that no cap refuses: none of the windows that it counts in is full.
  check_message-none :
      (check_message cfg c req now).1 ≡ none
      → NotFull c.global cfg.global_max_per_hour hour now
        × ((str_eq req.recipient "" ≡ false)
            → NotFull (window_at c.recipient req.recipient) cfg.recipient_max_per_hour hour now
              × NotFull
                  (prune_before hour now (window_at c.recipient req.recipient))
                  cfg.recipient_max_per_minute
                  minute
                  now)
        × (req.new_recipient ≡ true
            → NotFull c.new_recipients cfg.new_recipients_per_day new_recipient_window now)
  unfolding check_message
  check_message-none h =
      let g = consider Cap.global_per_hour c.global cfg.global_max_per_hour hour now none in
      let c' : SendCaps = record c { global = g.0 } in
      let r = check_recipient cfg c' req.recipient now g.1 in
      let by_day = check_new_recipient-none cfg r.0 req.new_recipient now r.1 h in
      let by_chat = check_recipient-none cfg c' req.recipient now g.1 by_day.0 in
      (
        (consider-none Cap.global_per_hour c.global cfg.global_max_per_hour hour now none
            by_chat.0).1,
        by_chat.1,
        λ e.
            subst (λ ts. NotFull ts cfg.new_recipients_per_day new_recipient_window now)
              (check_recipient-new_recipients cfg c' req.recipient now g.1) (by_day.1 e),
      )

  check_feedback-none :
      (check_feedback cfg c req now).1 ≡ none
      → NotFull c.feedback_global cfg.feedback_max_per_hour hour now
        × ((str_eq req.recipient "" ≡ false)
            → NotFull
                (window_at c.feedback_recipient req.recipient)
                cfg.feedback_max_per_minute
                minute
                now)
  unfolding check_feedback
  check_feedback-none h =
      let g =
        consider Cap.feedback_per_hour c.feedback_global cfg.feedback_max_per_hour hour now none in
      let c' : SendCaps = record c { feedback_global = g.0 } in
      let by_chat = check_feedback_recipient-none cfg c' req.recipient now g.1 h in
      (
        (consider-none Cap.feedback_per_hour c.feedback_global cfg.feedback_max_per_hour hour now
            none by_chat.0).1,
        by_chat.1,
      )

-- Room in a window is room in its history.
room :
    (kept window now limit : ℕ) (ts h : List ℕ) (l : ℤ)
    → l ≡ pos limit
    → 0 < limit
    → window ≤ kept
    → Tracks kept now ts h
    → NotFull ts l window now
    → recent window now h < limit
room kept window now limit ts h l e positive short k free =
    let open_ =
      window_full-none (prune_before window now ts) limit window now
        (subst (λ x. NotFull ts x window now) e free) in
    ground (arith, open_, length-prune_before window now ts k.ascending, k.same window now)

named_chat :
    (a r : String) → (not (str_eq a "") && str_eq a r) ≡ true → (str_eq a "" ≡ false) × (a ≡ r)
named_chat a r h = ground (arith, eq_iff a r)

-- A check that refuses nothing leaves room in every window that the send would be counted in, for
-- each cap whose limit is positive.
pub check_class-room :
    (k : SendClass) (cfg : Config) (c : SendCaps) (req : SendRequest) (now : ℕ) (cap : Cap)
    (r : String) (limit : ℕ) (h : List ℕ)
    → (check_class k cfg c req now).1 ≡ none
    → counts cfg k req (slot_of cap r) ≡ true
    → limit_of cfg cap ≡ pos limit
    → 0 < limit
    → Tracks (span (slot_of cap r)) now (window_of c (slot_of cap r)) h
    → recent (window_length cap) now h < limit
unfolding check_class counts window_of
check_class-room class_message cfg c req now Cap.global_per_hour r limit h e _ l p k =
    room _ hour now limit c.global h _ l p (omega arith) k (check_message-none cfg c req now e).0
check_class-room class_message cfg c req now Cap.new_recipients_per_day r limit h e f l p k =
    room _ new_recipient_window now limit c.new_recipients h _ l p (omega arith) k
      ((check_message-none cfg c req now e).2 (ground arith))
check_class-room class_message cfg c req now Cap.recipient_per_hour r limit h e f l p k =
    let (named, same) = named_chat req.recipient r f in
    room _ hour now limit (window_at c.recipient r) h _ l p (omega arith) k (
      subst (λ a. NotFull (window_at c.recipient a) cfg.recipient_max_per_hour hour now) same
        ((check_message-none cfg c req now e).1 named).0)
check_class-room class_message cfg c req now Cap.recipient_per_minute r limit h e f l p k =
    let (named, same) = named_chat req.recipient r f in
    room _ minute now limit (prune_before hour now (window_at c.recipient r)) h _ l p (omega arith)
      (Tracks-prune_before hour now (window_at c.recipient r) h k)
      (subst
        (λ a.
          NotFull (prune_before hour now (window_at c.recipient a)) cfg.recipient_max_per_minute
            minute now)
        same ((check_message-none cfg c req now e).1 named).1)
check_class-room class_feedback cfg c req now Cap.feedback_per_hour r limit h e _ l p k =
    room _ hour now limit c.feedback_global h _ l p (omega arith) k
      (check_feedback-none cfg c req now e).0
check_class-room class_feedback cfg c req now Cap.feedback_per_minute r limit h e f l p k =
    let (named, same) = named_chat req.recipient r f in
    room _ minute now limit (window_at c.feedback_recipient r) h _ l p (omega arith) k (
      subst (λ a. NotFull (window_at c.feedback_recipient a) cfg.feedback_max_per_minute minute now)
        same ((check_feedback-none cfg c req now e).1 named))
check_class-room _ cfg c req now _ r limit h e f l p k = absurd (false≢true f)
