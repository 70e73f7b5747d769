-- ===== src/Tests/Antiban.antt =====
-- Instances for whatsapp-bridge/internal/antiban.
use whatsapp_mcp_pro.Base.{
  ℕ, ◌+◌, ◌*◌, ◌≤◌, ◌≡◌, refl, List, [], ◌∷◌, some, All, true, false, ℤ, pos, String, arith,
  is_some, lookup, insert, delete, ltb, length, if◌then◌else◌,
}
use whatsapp_mcp_pro.Antiban.Config.{Config, second, minute, hour, millisecond, text, reaction}
use whatsapp_mcp_pro.Antiban.Window.{prune_before, window_full}
use whatsapp_mcp_pro.Antiban.Window.Track.{within, recent}
use whatsapp_mcp_pro.Antiban.Caps.{
  Cap, SendRequest, SendCaps, missing, unreadable, check, reserve, check_class, check_message,
  check_recipient, check_new_recipient, record_class, consider, worse, window_at, set_or_delete,
  sweep_if_large, new_send_caps, load_new_recipients,
}
use whatsapp_mcp_pro.Antiban.Caps.Slots.{span, window_of}
use whatsapp_mcp_pro.Antiban.Caps.Room.{slot_of, window_length}
use whatsapp_mcp_pro.Antiban.Caps.Ceilings.{
  Admitted, Call, checks, reserves, run, step, instants, run-ceiling,
}
use whatsapp_mcp_pro.Antiban.Caps.Restart.{is_first_contact, unreadable_blocks}
use whatsapp_mcp_pro.Antiban.Health.{
  HealthMonitor, logged_out, send_failed_403, new_health_monitor, record_event, tick, apply_delta,
  clamp_score,
}
use whatsapp_mcp_pro.Antiban.Health.Score.{
  Inv, Feed, event, decay, feed, ticks, feed-Inv, ticks_unpaused,
}
use whatsapp_mcp_pro.Antiban.WarmUp.{
  WarmUpState, ensure_state, can_send, record_send, sent_on, daily_limit_locked, limit_on_day,
  start_limit, warm_up_daily_cap, ramp, day,
}
use whatsapp_mcp_pro.Antiban.WarmUp.Ramp.{limit_on_day_shape}
use whatsapp_mcp_pro.Antiban.WarmUp.Days
use whatsapp_mcp_pro.Antiban.Pacing.{
  Bounds, delay_bounds, ordered, compute_delay, wait, wait_delay, typing_delay,
}
use whatsapp_mcp_pro.Antiban.Pacing.Spacing.{wait_spacing}
use whatsapp_mcp_pro.Antiban.Interceptor.{
  PacingState, SendInterceptor, Moment, check_caps, reserve_caps, send_gate, pacing_gate, precheck,
  before_send, pace, health_paused,
}
use whatsapp_mcp_pro.Antiban.Interceptor.Order.{before_send-precheck}
use whatsapp_mcp_pro.Antiban.Interceptor.Sends.{Send, end_of, send_all, send_all-slots}

-- The defaults, with pacing on and two messages per recipient and minute.
abbrev cfg : Config
cfg = record {
  enabled = true;
  text_delay_min = pos (1500 * millisecond);
  text_delay_max = pos (4 * second);
  feedback_delay_min = pos (500 * millisecond);
  feedback_delay_max = pos (1500 * millisecond);
  typing_ms_per_char = pos 30;
  warm_up_days = pos 7;
  warm_up_start_limit = pos 20;
  warm_up_state_path = "store/antiban_warmup.json";
  risk_pause_threshold = pos 70;
  caps_enabled = true;
  recipient_max_per_minute = pos 2;
  recipient_max_per_hour = pos 60;
  global_max_per_hour = pos 120;
  new_recipients_per_day = pos 10;
  feedback_max_per_minute = pos 20;
  feedback_max_per_hour = pos 300;
  caps_state_path = "store/antiban_caps.json";
}

abbrev start : ℕ
start = 1000 * hour

abbrev message : SendRequest
message = record { type = text; len = 5; recipient = "49151@s.whatsapp.net"; new_recipient = false }

abbrev first_contact : SendRequest
first_contact = record message { new_recipient = true }

abbrev calls : List Call
calls =
    reserves message start
    ∷ checks message (start + second)
    ∷ reserves message (start + second)
    ∷ reserves message (start + 2 * second)
    ∷ []

-- The third message within a minute is refused.
third_refused : length (run cfg (new_send_caps cfg missing start, []) calls).1 ≡ 2
unfolding run step check check_class check_message check_recipient check_new_recipient reserve
    record_class consider worse prune_before window_full window_at set_or_delete sweep_if_large
    new_send_caps load_new_recipients lookup insert delete
third_refused = refl

run-ceiling_example :
    within (window_length Cap.recipient_per_minute) start (
      instants cfg
        (slot_of Cap.recipient_per_minute "49151@s.whatsapp.net")
        (run cfg (new_send_caps cfg missing start, []) calls).1)
    ≤ 2
run-ceiling_example =
    run-ceiling cfg Cap.recipient_per_minute "49151@s.whatsapp.net" 2 start calls refl refl
      (omega arith) (omega arith, (omega arith, (omega arith, (omega arith, tt)))) start

-- A reply goes out, and two first contacts do not.
abbrev after_start : List Call
after_start =
    reserves first_contact (start + second)
    ∷ reserves message (start + minute)
    ∷ reserves first_contact (start + hour)
    ∷ []

unreadable_blocks_example :
    All
      (λ a. is_first_contact a.request ≡ false)
      (run cfg (new_send_caps cfg unreadable start, []) after_start).1
    × (is_some
          (check cfg
            (run cfg (new_send_caps cfg unreadable start, []) after_start).0
            first_contact
            (start + 2 * hour)).1
        ≡ true)
unreadable_blocks_example =
    unreadable_blocks cfg 10 start refl refl refl (omega arith) after_start first_contact
      (start + 2 * hour)
      ((omega arith, omega arith, (omega arith, omega arith, (omega arith, omega arith, tt))))
      (omega arith) (omega arith) refl

abbrev feeds : List Feed
feeds = event logged_out ∷ event send_failed_403 ∷ decay ∷ []

-- 50 + 25 pauses, and 72 is above the resume threshold.
feeds_paused : (feed (new_health_monitor (pos 70) (pos 0)) feeds).paused ≡ true
unfolding feed record_event tick apply_delta clamp_score new_health_monitor
feeds_paused = refl

feed-Inv_example : Inv (feed (new_health_monitor (pos 70) (pos 0)) feeds)
feed-Inv_example = feed-Inv (pos 70) (pos 0) feeds

ticks_unpaused_example :
    (ticks 34 (feed (new_health_monitor (pos 70) (pos 0)) feeds)).paused ≡ false
ticks_unpaused_example = ticks_unpaused (pos 70) (pos 0) feeds

-- A day number as its key.
abbrev today_key : ℕ → String
today_key now = if ltb now (start + 24 * hour) then "2026-01-01" else "2026-01-02"

abbrev warm : WarmUpState
warm = record { start_date = start; day_sent = ("2026-01-01", pos 19) ∷ []; last_send_time = start }

-- Two sends are allowed before either is recorded, and the day holds one more than its limit of 20.
abbrev warm_calls : List Days.Call
warm_calls =
    Days.asks (start + hour)
    ∷ Days.records (start + hour + second)
    ∷ Days.records (start + hour + 2 * second)
    ∷ []

warm_overshoots :
    sent_on
      (Days.run today_key cfg (can_send today_key cfg warm (start + hour)).0 warm_calls)
      "2026-01-01"
    ≡ pos 21
unfolding Days.run can_send record_send ensure_state sent_on lookup insert
warm_overshoots = refl

limit_on_day_shape_example :
    (start_limit (pos 20) ≤ limit_on_day cfg 2)
    × (limit_on_day cfg 2 ≤ warm_up_daily_cap)
    × (limit_on_day cfg 2 ≤ limit_on_day cfg 9)
    × (limit_on_day cfg 6 ≡ warm_up_daily_cap)
limit_on_day_shape_example =
    limit_on_day_shape cfg 7 2 9 refl (omega arith) (omega arith) (omega arith)

abbrev lowest : Bounds → ℤ
lowest b = b.low

wait_spacing_example :
    (start + second ≤ (wait lowest cfg start reaction 0 (start + second)).last_send)
    × (start + 500 * millisecond ≤ (wait lowest cfg start reaction 0 (start + second)).last_send)
    × ((wait lowest cfg start reaction 0 (start + second)).last_send
        ≡ start + second + (wait lowest cfg start reaction 0 (start + second)).delay)
unfolding ordered delay_bounds
wait_spacing_example =
    wait_spacing lowest cfg start reaction 0 (start + second) (500 * millisecond) refl (omega arith)
      refl

abbrev healthy : HealthMonitor
healthy = record {
  score = pos 0;
  paused = false;
  pause_threshold = pos 70;
  resume_threshold = pos 30;
  decay_interval = pos (5 * minute);
  closed = false;
}

abbrev empty_caps : SendCaps
empty_caps = record {
  recipient = [];
  feedback_recipient = [];
  global = [];
  feedback_global = [];
  new_recipients = [];
}

abbrev pacing : PacingState
pacing = record { last_send = start; warm_up = warm; health = healthy }

abbrev paused_pacing : PacingState
paused_pacing = record pacing { health = record healthy { score = pos 80; paused = true } }

abbrev moment : Moment
moment = record {
  warm_up_at = start + second;
  check_at = start + second;
  wait_at = start + second;
  reserve_at = start + 2 * second;
  ended_before = false;
  ended_waiting = false;
}

-- One send goes out, and one whose context ends while it waits does not.
abbrev sends : List Send
sends =
    record { request = message; moment = moment }
    ∷ record {
      request = message;
      moment = record moment {
        warm_up_at = start + 3 * second;
        check_at = start + 3 * second;
        wait_at = start + 3 * second;
        reserve_at = start + 4 * second;
        ended_waiting = true;
      };
    }
    ∷ []

abbrev asked : SendInterceptor × List Admitted
asked =
    send_all today_key lowest cfg
      (record { caps = some (new_send_caps cfg missing start); pacing = some pacing }, []) sends

one_sent : length asked.1 ≡ 1
unfolding send_all before_send send_gate check_caps reserve_caps pace wait compute_delay ordered
    delay_bounds typing_delay can_send ensure_state sent_on daily_limit_locked limit_on_day
    start_limit ramp day check check_class check_message check_recipient check_new_recipient reserve
    record_class consider worse prune_before window_full window_at set_or_delete sweep_if_large
    lookup insert delete wait_delay new_send_caps load_new_recipients
one_sent = refl

send_all-slots_example :
    ((from : ℕ)
      → within
          (window_length Cap.recipient_per_minute)
          from
          (instants cfg (slot_of Cap.recipient_per_minute "49151@s.whatsapp.net") asked.1)
        ≤ 2)
    × (c : SendCaps) × (asked.0.caps ≡ some c)
    × ((now : ℕ)
        → end_of start sends ≤ now
        → recent
            (span (slot_of Cap.recipient_per_minute "49151@s.whatsapp.net"))
            now
            (window_of c (slot_of Cap.recipient_per_minute "49151@s.whatsapp.net"))
          ≡ recent
              (span (slot_of Cap.recipient_per_minute "49151@s.whatsapp.net"))
              now
              (instants cfg (slot_of Cap.recipient_per_minute "49151@s.whatsapp.net") asked.1))
send_all-slots_example =
    send_all-slots today_key lowest cfg Cap.recipient_per_minute "49151@s.whatsapp.net" 2 refl refl
      (omega arith) (some pacing) start sends
      (omega arith, omega arith, (omega arith, omega arith, tt))

before_send-precheck_example :
    before_send today_key lowest cfg
      (record { caps = some empty_caps; pacing = some paused_pacing })
      message
      moment
    ≡ precheck today_key cfg
        (record { caps = some empty_caps; pacing = some paused_pacing })
        message
        moment
unfolding precheck pacing_gate
before_send-precheck_example =
    before_send-precheck today_key lowest cfg
      (record { caps = some empty_caps; pacing = some paused_pacing }) message moment health_paused
      refl
