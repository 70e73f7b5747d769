-- ===== src/Antiban/Interceptor.antt =====
-- The interceptor of whatsapp-bridge/internal/antiban/antiban.go, which every outgoing message goes
-- through. The limiter, the warm-up and the health monitor are there together or not at all, as
-- `NewSendInterceptor` builds them. The receiver is not nil.
pub mod Order
pub mod Sends
use text.Mathlib.Text.{find?}
use whatsapp_mcp_pro.Base.{
  ltb, ◌&&◌, ℕ, Bool, true, false, ◌||◌, ℤ, Option, none, some, String, is_some, if◌then◌else◌,
}
use whatsapp_mcp_pro.Antiban.Config.{Config, MessageType, minute}
use whatsapp_mcp_pro.Antiban.Caps.{
  CapError, SendRequest, SendCaps, StateFile, check, reserve, new_send_caps,
}
use whatsapp_mcp_pro.Antiban.Health.{
  HealthMonitor, HealthEventType, send_failed_403, send_failed, send_success, new_health_monitor,
  record_event, close,
}
use whatsapp_mcp_pro.Antiban.WarmUp.{WarmUpState, WarmUpFile, new_warm_up, can_send, record_send}
use whatsapp_mcp_pro.Antiban.Pacing.{Bounds, wait}

pub record PacingState : Type 0 where
  pub last_send : ℕ
  pub warm_up : WarmUpState
  pub health : HealthMonitor

pub record SendInterceptor : Type 0 where
  pub caps : Option SendCaps
  pub pacing : Option PacingState

pub data Refusal : Type 0 where
  health_paused warm_up_limit_reached context_ended : Refusal
  capped : CapError → Refusal

-- The readings of the clock in one call, in the order in which they are taken, and what the
-- context says when `Wait` begins and while it waits.
pub record Moment : Type 0 where
  pub warm_up_at : ℕ
  pub check_at : ℕ
  pub wait_at : ℕ
  pub reserve_at : ℕ
  pub ended_before : Bool
  pub ended_waiting : Bool

-- `Check` and `Reserve`, with their test for a nil receiver.
unfoldable pub check_caps :
    Config → Option SendCaps → SendRequest → ℕ → Option SendCaps × Option Refusal
check_caps cfg none req now = (none, none)
check_caps cfg (some c) req now =
    let r = check cfg c req now in (some r.0, elim (r.1) [ none ↦ none | some e ↦ some (capped e) ])

unfoldable pub reserve_caps :
    Config → Option SendCaps → SendRequest → ℕ → Option SendCaps × Option Refusal
reserve_caps cfg none req now = (none, none)
reserve_caps cfg (some c) req now =
    let r = reserve cfg c req now in
    (some r.caps, elim (r.refusal) [ none ↦ none | some e ↦ some (capped e) ])

-- `NewSendInterceptor`: none is the error of an empty warm-up path.
unfoldable pub new_send_interceptor :
    Config → StateFile → WarmUpFile → ℕ → ℤ → Option SendInterceptor
new_send_interceptor cfg caps_file warm_up_file now decay_interval =
    let caps = if cfg.caps_enabled then some (new_send_caps cfg caps_file now) else none in
    if cfg.enabled
    then elim (new_warm_up cfg warm_up_file now) [
      | none ↦ none
      | some (w, moved) ↦ some (record {
        caps = caps;
        pacing = some (record {
          last_send = 0;
          warm_up = w;
          health = new_health_monitor cfg.risk_pause_threshold decay_interval;
        });
      })
    ]
    else some (record { caps = caps; pacing = none })

-- `isSendFailed403`, on the text of an error.
unfoldable pub is_send_failed_403 : Option String → Bool
is_send_failed_403 none = false
is_send_failed_403 (some message) = is_some (find? message "403") || is_some (find? message "401")

module _ (today_key : ℕ → String) where
  -- The first part of `BeforeSend`: health, then warm-up.
  unfoldable pub send_gate : Config → Option PacingState → ℕ → Option PacingState × Option Refusal
  send_gate cfg none now = (none, none)
  send_gate cfg (some p) now =
      let asked = can_send today_key cfg p.warm_up now in
      if p.health.paused then (some p, some health_paused) else (
        some (record p { warm_up = asked.0 }),
        if asked.1 then none else some warm_up_limit_reached,
      )

  -- The first part of `Precheck`, which repeats it.
  unfoldable pub pacing_gate : Config → Option PacingState → ℕ → Option PacingState × Option Refusal
  pacing_gate cfg none now = (none, none)
  pacing_gate cfg (some p) now =
      let asked = can_send today_key cfg p.warm_up now in
      if p.health.paused then (some p, some health_paused) else (
        some (record p { warm_up = asked.0 }),
        if asked.1 then none else some warm_up_limit_reached,
      )

  -- `Precheck`
  unfoldable pub precheck :
      Config → SendInterceptor → SendRequest → Moment → SendInterceptor × Option Refusal
  precheck cfg s req m =
      let gate = pacing_gate cfg s.pacing m.warm_up_at in
      let checked = check_caps cfg s.caps req m.check_at in
      if is_some gate.1
      then (record { caps = s.caps; pacing = gate.0 }, gate.1)
      else (record { caps = checked.0; pacing = gate.0 }, checked.1)

  -- `AfterSend`
  unfoldable pub after_send : SendInterceptor → ℕ → SendInterceptor
  after_send s now = record s {
    pacing = elim (s.pacing) [
      | none ↦ none
      | some p ↦ some (record p {
        warm_up = record_send today_key p.warm_up now;
        health = record_event p.health send_success;
      })
    ];
  }

module _ (today_key : ℕ → String) (sample : Bounds → ℤ) where
  -- The call of `Wait`.
  unfoldable pub pace :
      Config → Option PacingState → SendRequest → Moment → Option PacingState × Option Refusal
  pace cfg none req m = (none, none)
  pace cfg (some p) req m =
      let w = wait sample cfg p.last_send req.type req.len m.wait_at in
      if m.ended_before then (some p, some context_ended) else (
        some (record p { last_send = w.last_send }),
        if ltb 0 w.delay && m.ended_waiting then some context_ended else none,
      )

  -- `BeforeSend`
  unfoldable pub before_send :
      Config → SendInterceptor → SendRequest → Moment → SendInterceptor × Option Refusal
  before_send cfg s req m =
      let gate = send_gate today_key cfg s.pacing m.warm_up_at in
      let checked = check_caps cfg s.caps req m.check_at in
      let paced = pace cfg gate.0 req m in
      let reserved = reserve_caps cfg checked.0 req m.reserve_at in
      if is_some gate.1
      then (record { caps = s.caps; pacing = gate.0 }, gate.1)
      else if is_some checked.1
      then (record { caps = checked.0; pacing = gate.0 }, checked.1)
      else if is_some paced.1
      then (record { caps = checked.0; pacing = paced.0 }, paced.1)
      else (record { caps = reserved.0; pacing = paced.0 }, reserved.1)

-- `RecordEvent`
unfoldable pub record_health_event : SendInterceptor → HealthEventType → SendInterceptor
record_health_event s e = record s {
  pacing = elim (s.pacing) [
    | none ↦ none
    | some p ↦ some (record p { health = record_event p.health e })
  ];
}

-- `AfterSendFailed`
unfoldable pub after_send_failed : SendInterceptor → Option String → SendInterceptor
unfolding record_health_event
after_send_failed s err =
    record_health_event s (if is_send_failed_403 err then send_failed_403 else send_failed)

-- `Close`, less the file that it writes.
unfoldable pub close_interceptor : SendInterceptor → SendInterceptor
close_interceptor s = record s {
  pacing = elim (s.pacing) [ none ↦ none | some p ↦ some (record p { health = close p.health }) ];
}
