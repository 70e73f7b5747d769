-- ===== src/Tests/MediaRetry.antt =====
-- Instances for whatsapp-bridge/internal/database/media_requests.go and
-- internal/whatsapp/mediaretry_queue.go.
use whatsapp_mcp_pro.Base.{
  ℕ, ◌+◌, ◌*◌, ◌-◌, ◌%◌, ◌≤◌, ◌≡◌, refl, List, [], ◌∷◌, none, true, false, arith, ltb,
}
use whatsapp_mcp_pro.Antiban.Window.Track.{within}
use whatsapp_mcp_pro.MediaRetry.Requests.{
  second, pending, MediaRequest, Store, get, count_receipts_since, db_time,
}
use whatsapp_mcp_pro.MediaRetry.Queue.{
  hour, default_media_retry_config, in_quiet_hours, media_retry_budget, Sending, TickEnv, tick,
}
use whatsapp_mcp_pro.MediaRetry.Queue.Pace.{in_quiet_hours_lem, Reports, tick-Reports}
use whatsapp_mcp_pro.MediaRetry.Ask.{
  in_flight, AskEnv, refused, ask_phone_for_media, send_if_budget, unless_refused, refusal,
  send_receipt,
}
use whatsapp_mcp_pro.MediaRetry.Ask.Once.{
  Meanwhile, enqueues, sends, expires, meanwhile_all, ask_once,
}
use whatsapp_mcp_pro.MediaRetry.Paced.{span}
use whatsapp_mcp_pro.MediaRetry.Hourly
use whatsapp_mcp_pro.MediaRetry.Hourly.{Event, ticks, asks, Hourly, run-Hourly}

abbrev now : ℕ
now = 1000 * hour

abbrev request : MediaRequest
request = record {
  message_id = "3EB0";
  chat_jid = "49151@s.whatsapp.net";
  state = pending;
  attempts = 2;
  last_error = "";
  last_attempt_at = none;
  created_at = 3000000;
  updated_at = 3000000;
}

abbrev later_request : MediaRequest
later_request = record request { message_id = "3EB1"; created_at = 3100000 }

abbrev store : Store
store = record { requests = request ∷ later_request ∷ []; receipts = [] }

abbrev sending : MediaRequest → Sending
sending r = record { alive = true; error = none; mark_fails = false; at = now + second }

abbrev awake : TickEnv
awake = record {
  connected = true;
  now = now;
  local_hour = 12;
  expire_fails = false;
  count_fails = false;
  due_fails = false;
  sending = sending;
}

abbrev ask_env : AskEnv
ask_env = record {
  get_fails = false;
  count_fails = false;
  mark_fails = false;
  now = now + 2 * second;
  at = now + 3 * second;
  error = none;
}

abbrev events : List Event
events =
    ticks awake (db_time (now + second))
    ∷ asks "3EB7" "49151@s.whatsapp.net" ask_env (db_time (now + 3 * second))
    ∷ []

run-Hourly_example :
    within span (db_time now) (Hourly.run "gone" default_media_retry_config events store []).1 ≤ 5
run-Hourly_example =
    run-Hourly "gone" default_media_retry_config events (db_time now) store []
      (
        omega arith,
        omega arith,
        (λ r. (refl, omega arith, omega arith)),
        (omega arith, omega arith, omega arith, refl, tt),
      )
      (record { logged = λ m le. refl; ceiling = λ from. omega arith }) (db_time now)

-- Between the asks the message is enqueued, another one is sent, and the expiry runs.
abbrev meantime : List Meanwhile
meantime =
    enqueues "3EB0" "49151@s.whatsapp.net" (now + 4 * second)
    ∷ sends "3EB1" "49151@s.whatsapp.net" (now + 5 * second)
    ∷ expires (now - hour) 3 (now + 6 * second)
    ∷ []

abbrev first_ask : Store
first_ask =
    (ask_phone_for_media "gone" default_media_retry_config "3EB0" "49151@s.whatsapp.net" ask_env
      store []).store

ask_once_example :
    ask_phone_for_media "gone" default_media_retry_config "3EB0" "49151@s.whatsapp.net" ask_env
      (meanwhile_all meantime first_ask)
      []
    ≡ refused (meanwhile_all meantime first_ask) [] in_flight
unfolding ask_phone_for_media send_if_budget unless_refused refusal send_receipt get
    media_retry_budget count_receipts_since
ask_once_example =
    ask_once "gone" default_media_retry_config "3EB0" "49151@s.whatsapp.net" ask_env ask_env store
      [] [] meantime refl refl refl (tt, (refl, (omega arith, tt)))

in_quiet_hours_lem_example :
    in_quiet_hours default_media_retry_config 2 ≡ ltb ((2 + 24 - 23) % 24) ((8 + 24 - 23) % 24)
in_quiet_hours_lem_example =
    in_quiet_hours_lem default_media_retry_config 2 (omega arith) (omega arith) (omega arith)

tick-Reports_example : Reports [] (tick default_media_retry_config awake store [])
tick-Reports_example = tick-Reports default_media_retry_config awake store []
