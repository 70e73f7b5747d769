-- ===== src/Tests/Phone.antt =====
-- Instances for whatsapp-bridge/internal/whatsapp/phoneping.go.
use whatsapp_mcp_pro.Base.{◌+◌, ◌*◌, ◌≡◌, refl, List, [], ◌∷◌, Option, none, some, true, arith, All}
use whatsapp_mcp_pro.Phone.Monitor.{
  hour, day, SavedStatus, PhoneMonitor, load_phone_status, new_phone_monitor, check,
  phone_offline_for, should_ping_phone, phone_seen, save_locked, save_phone_status,
  phone_alert_level_for, should_log_phone_alert,
}
use whatsapp_mcp_pro.Phone.Runs.{
  Step, event, checks, restart, media_retry, message, perform, run, handle_event,
}
use whatsapp_mcp_pro.Phone.Pings.{Spaced, run-Spaced}
use whatsapp_mcp_pro.Phone.Seen.{Until, SeenIn, run-SeenIn}

-- Seen on the tenth day, and never pinged.
abbrev row : Option SavedStatus
row = some (record { seen_ms = some (10 * 86_400_000); pinged_ms = none; since_ms = some 0 })

-- Checks around a restart, and a sighting that is older than the last one.
abbrev days : List Step
days =
    checks true (18 * day)
    ∷ checks true (18 * day + 23 * hour)
    ∷ restart true (7 * day) (18 * day + 23 * hour)
    ∷ checks true (18 * day + 23 * hour)
    ∷ checks true (19 * day)
    ∷ event (media_retry (some (9 * day))) (19 * day)
    ∷ event (message true 0 (some (25 * day))) (20 * day)
    ∷ []

abbrev start : PhoneMonitor
start = new_phone_monitor true (7 * day) true (11 * day) row

-- Two pings, a day apart.
two_pings : (run days start).1 ≡ 18 * day ∷ 19 * day ∷ []
unfolding run perform check phone_offline_for should_ping_phone new_phone_monitor load_phone_status
    save_locked save_phone_status handle_event phone_seen phone_alert_level_for
    should_log_phone_alert
two_pings = refl

run-Spaced_example : Spaced (load_phone_status row).last_pinged (run days start).1
run-Spaced_example = run-Spaced true (7 * day) (11 * day) row days

in_time : All (Until (20 * day)) days
in_time = (
  omega arith,
  (omega arith, (omega arith, (omega arith, (omega arith, (omega arith, (omega arith, tt)))))),
)

starts : SeenIn (some (10 * day)) (20 * day) start
unfolding new_phone_monitor load_phone_status
starts = record { saved = refl; forward = omega arith; past = omega arith }

run-SeenIn_example : SeenIn (some (10 * day)) (20 * day) (run days start).0
run-SeenIn_example = run-SeenIn days start (some (10 * day)) (20 * day) in_time starts
