-- ===== src/Antiban/Caps.antt =====
-- The send caps of whatsapp-bridge/internal/antiban/caps.go. The clock is the argument `now`. A
-- method returns the new state beside its result. The receiver is not nil here: the interceptor
-- holds an optional `SendCaps` and answers for nil.
pub mod Slots
pub mod Room
pub mod Ceilings
pub mod Restart
use whatsapp_mcp_pro.Base.{
  ℕ, ◌+◌, ◌*◌, List, [], ◌∷◌, ◌++◌, Option, none, some, Bool, true, false, not, ◌&&◌, ◌||◌, ℤ, pos,
  negsuc, String, str_eq, ltb, ltb_ℤ, leb_ℤ, if◌then◌else◌, length, replicate, pos_part, Dict,
  lookup, insert, delete,
}
use whatsapp_mcp_pro.Antiban.Config.{
  Config, MessageType, SendClass, class_message, class_feedback, class_exempt, class, minute, hour,
}
use whatsapp_mcp_pro.Antiban.Window.{prune_before, window_full, normalize_times}

pub data Cap : Type 0 where
  recipient_per_minute recipient_per_hour global_per_hour : Cap
  new_recipients_per_day feedback_per_minute feedback_per_hour : Cap

abbrev pub new_recipient_window : ℕ
new_recipient_window = 24 * hour

abbrev pub cap_sweep_threshold : ℕ
cap_sweep_threshold = 256

pub record CapError : Type 0 where
  pub cap : Cap
  pub limit : ℤ
  pub window : ℕ
  pub retry_after : ℕ

pub record SendRequest : Type 0 where
  pub type : MessageType
  pub len : ℕ
  pub recipient : String
  pub new_recipient : Bool

pub record SendCaps : Type 0 where
  pub recipient : Dict (List ℕ)
  pub feedback_recipient : Dict (List ℕ)
  pub global : List ℕ
  pub feedback_global : List ℕ
  pub new_recipients : List ℕ

-- Reading a Go map: a missing key reads as the empty slice.
unfoldable pub window_at : Dict (List ℕ) → String → List ℕ
window_at m key = elim (lookup key m) [ none ↦ [] | some ts ↦ ts ]

-- `setOrDelete`
unfoldable pub set_or_delete : Dict (List ℕ) → String → List ℕ → Dict (List ℕ)
set_or_delete m key [] = delete key m
set_or_delete m key (t ∷ ts) = insert key (t ∷ ts) m

-- The test of the closure `consider`: the worst refusal so far, and a window's own.
unfoldable pub worse : Cap → ℤ → ℕ → Option ℕ → Option CapError → Option CapError
worse cap limit window none worst = worst
worse cap limit window (some retry) none =
    some (record { cap = cap; limit = limit; window = window; retry_after = retry })
worse cap limit window (some retry) (some w) = some (
    if ltb w.retry_after retry
    then record { cap = cap; limit = limit; window = window; retry_after = retry }
    else w)

-- The closure `consider`: the pruned window, and the worst refusal after it.
unfoldable pub consider : Cap → List ℕ → ℤ → ℕ → ℕ → Option CapError → List ℕ × Option CapError
consider cap ts limit window now worst =
    let kept = prune_before window now ts in
    (kept, worse cap limit window (window_full kept limit window now) worst)

-- The parts of `checkLocked` for one class, an `if` each.
unfoldable pub check_recipient :
    Config → SendCaps → String → ℕ → Option CapError → SendCaps × Option CapError
check_recipient cfg c r now worst =
    let by_hour =
      consider Cap.recipient_per_hour (window_at c.recipient r) cfg.recipient_max_per_hour hour now
        worst in
    let by_minute =
      consider Cap.recipient_per_minute by_hour.0 cfg.recipient_max_per_minute minute now
        by_hour.1 in
    if str_eq r ""
    then (c, worst)
    else (record c { recipient = set_or_delete c.recipient r by_hour.0 }, by_minute.1)

unfoldable pub check_new_recipient :
    Config → SendCaps → Bool → ℕ → Option CapError → SendCaps × Option CapError
check_new_recipient cfg c false now worst = (c, worst)
check_new_recipient cfg c true now worst =
    let by_day =
      consider Cap.new_recipients_per_day c.new_recipients cfg.new_recipients_per_day
        new_recipient_window now worst in
    (record c { new_recipients = by_day.0 }, by_day.1)

unfoldable pub check_feedback_recipient :
    Config → SendCaps → String → ℕ → Option CapError → SendCaps × Option CapError
check_feedback_recipient cfg c r now worst =
    let by_minute =
      consider Cap.feedback_per_minute (window_at c.feedback_recipient r)
        cfg.feedback_max_per_minute minute now worst in
    if str_eq r "" then (c, worst) else (
      record c { feedback_recipient = set_or_delete c.feedback_recipient r by_minute.0 },
      by_minute.1,
    )

unfoldable pub check_message : Config → SendCaps → SendRequest → ℕ → SendCaps × Option CapError
check_message cfg c req now =
    let g = consider Cap.global_per_hour c.global cfg.global_max_per_hour hour now none in
    let r = check_recipient cfg (record c { global = g.0 }) req.recipient now g.1 in
    check_new_recipient cfg r.0 req.new_recipient now r.1

unfoldable pub check_feedback : Config → SendCaps → SendRequest → ℕ → SendCaps × Option CapError
check_feedback cfg c req now =
    let g =
      consider Cap.feedback_per_hour c.feedback_global cfg.feedback_max_per_hour hour now none in
    check_feedback_recipient cfg (record c { feedback_global = g.0 }) req.recipient now g.1

-- The `switch` of `checkLocked`.
unfoldable pub check_class :
    SendClass → Config → SendCaps → SendRequest → ℕ → SendCaps × Option CapError
check_class class_message cfg c req now = check_message cfg c req now
check_class class_feedback cfg c req now = check_feedback cfg c req now
check_class class_exempt cfg c req now = (c, none)

-- `checkLocked`, and `Check` on a receiver that is not nil.
unfoldable pub check : Config → SendCaps → SendRequest → ℕ → SendCaps × Option CapError
check cfg c req now =
    if cfg.caps_enabled then check_class (class req.type) cfg c req now else (c, none)

-- The `switch` of `Reserve`, on a class: the new state, and whether the window is to be saved.
unfoldable pub record_class : SendClass → Config → SendCaps → SendRequest → ℕ → SendCaps × Bool
record_class class_message cfg c req now =
    let saved = req.new_recipient && ltb_ℤ (pos 0) cfg.new_recipients_per_day in
    (
      record c {
        global = c.global ++ now ∷ [];
        recipient =
            if str_eq req.recipient ""
            then c.recipient
            else insert req.recipient (window_at c.recipient req.recipient ++ now ∷ []) c.recipient;
        new_recipients = if saved then c.new_recipients ++ now ∷ [] else c.new_recipients;
      },
      saved,
    )
record_class class_feedback cfg c req now = (
  record c {
    feedback_global = c.feedback_global ++ now ∷ [];
    feedback_recipient =
        if str_eq req.recipient ""
        then c.feedback_recipient
        else insert req.recipient (window_at c.feedback_recipient req.recipient ++ now ∷ [])
            c.feedback_recipient;
  },
  false,
)
record_class class_exempt cfg c req now = (c, false)

-- One loop of `sweepLocked`, over the keys that the map had when the loop began.
unfoldable pub sweep_keys : ℕ → ℕ → Dict (List ℕ) → Dict (List ℕ) → Dict (List ℕ)
sweep_keys window now [] m = m
sweep_keys window now ((key, ts) ∷ rest) m =
    sweep_keys window now rest (set_or_delete m key (prune_before window now (window_at m key)))

-- `sweepLocked`
unfoldable pub sweep : SendCaps → ℕ → SendCaps
sweep c now = record c {
  recipient = sweep_keys hour now c.recipient c.recipient;
  feedback_recipient = sweep_keys minute now c.feedback_recipient c.feedback_recipient;
}

-- The sweep at the end of `Reserve`, past the threshold.
unfoldable pub sweep_if_large : SendCaps → ℕ → SendCaps
sweep_if_large c now =
    if ltb cap_sweep_threshold (length c.recipient + length c.feedback_recipient)
    then sweep c now
    else c

-- What `Reserve` leaves: the state, the refusal, and the snapshot that it hands to `save`.
pub record Reserved : Type 0 where
  pub caps : SendCaps
  pub refusal : Option CapError
  pub snapshot : Option (List ℕ)

unfoldable pub reserve : Config → SendCaps → SendRequest → ℕ → Reserved
reserve cfg c req now =
    let checked = check cfg c req now in
    let recorded = record_class (class req.type) cfg checked.0 req now in
    let swept = sweep_if_large recorded.0 now in
    elim checked.1 [
      | some e ↦ record { caps = checked.0; refusal = some e; snapshot = none }
      | none ↦ record {
        caps = swept;
        refusal = none;
        snapshot = if recorded.1 then some swept.new_recipients else none;
      }
    ]

-- The state file as `loadNewRecipients` finds it.
pub data StateFile : Type 0 where
  missing unreadable : StateFile
  times : List ℕ → StateFile

-- `loadNewRecipients`: the window, and whether the file was moved aside.
unfoldable pub load_new_recipients : Config → StateFile → ℕ → List ℕ × Bool
load_new_recipients cfg file now =
    if str_eq cfg.caps_state_path ""
      || (not cfg.caps_enabled || leb_ℤ cfg.new_recipients_per_day (pos 0))
    then ([], false)
    else elim file [
      | missing ↦ ([], false)
      | unreadable ↦ (replicate (pos_part cfg.new_recipients_per_day) now, true)
      | times ts ↦ (prune_before new_recipient_window now (normalize_times ts now), false)
    ]

-- `newSendCaps`
unfoldable pub new_send_caps : Config → StateFile → ℕ → SendCaps
new_send_caps cfg file now = record {
  recipient = [];
  feedback_recipient = [];
  global = [];
  feedback_global = [];
  new_recipients = (load_new_recipients cfg file now).0;
}
