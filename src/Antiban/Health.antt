-- ===== src/Antiban/Health.antt =====
-- The health monitor of whatsapp-bridge/internal/antiban/healthmonitor.go. The decay loop is the
-- event `tick`; its ticker and the channel that stops it are not modelled, beyond `closed`.
pub mod Score
use whatsapp_mcp_pro.Base.{
  ℕ, ◌+◌, ◌*◌, Bool, true, false, ℤ, pos, negsuc, ◌+ℤ◌, ltb_ℤ, leb_ℤ, if◌then◌else◌,
}
use whatsapp_mcp_pro.Antiban.Config.{minute}

pub data HealthEventType : Type 0 where
  disconnected keep_alive_timeout stream_error logged_out send_failed_403 : HealthEventType
  send_failed connected send_success reachout_timelock : HealthEventType
  unknown : ℕ → HealthEventType

pub record HealthMonitor : Type 0 where
  pub score : ℤ
  pub paused : Bool
  pub pause_threshold : ℤ
  pub resume_threshold : ℤ
  pub decay_interval : ℤ
  pub closed : Bool

abbrev pub health_decay_step : ℤ
health_decay_step = negsuc 2

-- `newHealthMonitor`
unfoldable pub new_health_monitor : ℤ → ℤ → HealthMonitor
new_health_monitor pause_threshold decay_interval = record {
  score = pos 0;
  paused = false;
  pause_threshold = if leb_ℤ pause_threshold (pos 0) then pos 70 else pause_threshold;
  resume_threshold = pos 30;
  decay_interval = if leb_ℤ decay_interval (pos 0) then pos (5 * minute) else decay_interval;
  closed = false;
}

-- The two bounds that `applyDelta` puts on the score.
unfoldable pub clamp_score : ℤ → ℤ
clamp_score s =
    let raised = if ltb_ℤ s (pos 0) then pos 0 else s in
    if ltb_ℤ (pos 100) raised then pos 100 else raised

unfoldable pub apply_delta : HealthMonitor → ℤ → HealthMonitor
unfolding clamp_score
apply_delta h delta =
    let score = clamp_score (h.score +ℤ delta) in
    record h {
      score = score;
      paused =
          if leb_ℤ h.pause_threshold score
          then true
          else if leb_ℤ score h.resume_threshold
          then false
          else h.paused;
    }

abbrev pub delta_for_event : HealthEventType → ℤ
delta_for_event disconnected = pos 15
delta_for_event keep_alive_timeout = pos 10
delta_for_event stream_error = pos 20
delta_for_event logged_out = pos 50
delta_for_event send_failed_403 = pos 25
delta_for_event send_failed = pos 5
delta_for_event connected = negsuc 19
delta_for_event send_success = negsuc 0
delta_for_event reachout_timelock = pos 30
delta_for_event (unknown n) = pos 0

-- `RecordEvent`
unfoldable pub record_event : HealthMonitor → HealthEventType → HealthMonitor
record_event h e = apply_delta h (delta_for_event e)

-- One round of `runDecay`.
unfoldable pub tick : HealthMonitor → HealthMonitor
tick h = if h.closed then h else apply_delta h health_decay_step

unfoldable pub close : HealthMonitor → HealthMonitor
close h = record h { closed = true }
