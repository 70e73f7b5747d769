-- ===== src/MediaRetry/Queue.antt =====
-- The loop of whatsapp-bridge/internal/whatsapp/mediaretry_queue.go and the synchronous ask of the
-- download path. What the phone, the connection and SQLite do is given: the receipts that cannot be
-- sent, the state of the connection before each, and the statements that fail. `asked` lists the
-- seconds of the receipts that reached the phone, the newest first; the code keeps no such list.
pub mod Pace
use whatsapp_mcp_pro.Base.{
  ℕ, ◌+◌, ◌-◌, ◌*◌, List, [], ◌∷◌, Option, none, some, Bool, true, false, not, ◌&&◌, ◌||◌, ℤ, pos,
  negsuc, String, str_eq, ltb, leb, ◌==◌, if◌then◌else◌, is_some,
}
use whatsapp_mcp_pro.MediaRetry.Requests.{
  second, db_time, State, is_failed, is_sent, MediaRequest, Store, get, due, count_receipts_since,
  mark_sent, mark_send_error, mark_failed, mark_retry, mark_succeeded, expire_sent, is_unanswered,
}

abbrev pub hour : ℕ
hour = 3600 * second

-- `MediaRetryConfig`, whose numbers are not negative; `Interval` only drives the ticker.
pub record MediaRetryConfig : Type 0 where
  pub max_per_hour : ℕ
  pub max_attempts : ℕ
  pub batch_size : ℕ
  pub answer_timeout : ℕ
  pub retry_delay : ℕ
  pub quiet_start_hour : ℕ
  pub quiet_end_hour : ℕ

abbrev pub default_media_retry_config : MediaRetryConfig
default_media_retry_config = record {
  max_per_hour = 5;
  max_attempts = 3;
  batch_size = 3;
  answer_timeout = hour;
  retry_delay = 6 * hour;
  quiet_start_hour = 23;
  quiet_end_hour = 8;
}

-- `positiveEnvInt`: the number that a variable holds, if it parses, or 0.
unfoldable pub positive_env_int : Option ℤ → ℕ
positive_env_int none = 0
positive_env_int (some (negsuc n)) = 0
positive_env_int (some (pos n)) = n

-- The last test of `parseQuietHours`: "off", or the two numbers of "from-to", each if it parses.
pub data QuietText : Type 0 where
  off malformed : QuietText
  hours : Option ℤ → Option ℤ → QuietText

abbrev pub hour_of_day : Option ℤ → Option ℕ
hour_of_day none = none
hour_of_day (some (negsuc n)) = none
hour_of_day (some (pos n)) = if ltb 23 n then none else some n

unfoldable pub parse_quiet_hours : QuietText → Option (ℕ × ℕ)
parse_quiet_hours off = some (0, 0)
parse_quiet_hours malformed = none
parse_quiet_hours (hours from to) = elim (hour_of_day from) [
  | none ↦ none
  | some start ↦ elim (hour_of_day to) [ none ↦ none | some end ↦ some (start, end) ]
]

-- `MediaRetryConfigFromEnv`
unfoldable pub media_retry_config_from_env : Option ℤ → Option ℤ → QuietText → MediaRetryConfig
media_retry_config_from_env max_per_hour max_attempts quiet =
    let cfg = default_media_retry_config in
    let n = positive_env_int max_per_hour in
    let a = positive_env_int max_attempts in
    let limited : MediaRetryConfig = record cfg {
      max_per_hour = if ltb 0 n then n else cfg.max_per_hour;
      max_attempts = if ltb 0 a then a else cfg.max_attempts;
    } in
    elim (parse_quiet_hours quiet) [
      | none ↦ limited
      | some (start, end) ↦ record limited { quiet_start_hour = start; quiet_end_hour = end }
    ]

-- `inQuietHours`
unfoldable pub in_quiet_hours : MediaRetryConfig → ℕ → Bool
in_quiet_hours cfg h =
    if cfg.quiet_start_hour == cfg.quiet_end_hour
    then false
    else if ltb cfg.quiet_start_hour cfg.quiet_end_hour
    then leb cfg.quiet_start_hour h && ltb h cfg.quiet_end_hour
    else leb cfg.quiet_start_hour h || ltb h cfg.quiet_end_hour

-- `mediaRetryBudget`
unfoldable pub media_retry_budget : ℕ → ℕ → ℕ → ℕ
media_retry_budget sent_last_hour max_per_hour batch_size =
    let left = max_per_hour - sent_last_hour in
    if leb max_per_hour sent_last_hour
    then 0
    else if ltb 0 batch_size && ltb batch_size left
    then batch_size
    else left

-- One request of a batch: whether the bridge is still connected and not stopping, what the send
-- returns, whether the statement that records it fails, and the clock when it is recorded.
pub record Sending : Type 0 where
  pub alive : Bool
  pub error : Option String
  pub mark_fails : Bool
  pub at : ℕ

-- What a pass leaves: the tables, the number that `Tick` returns, whether it returns an error, and
-- the receipts that reached the phone.
pub record Pass : Type 0 where
  pub store : Store
  pub sent : ℕ
  pub fails : Bool
  pub asked : List ℕ

-- What one request does to a pass, and whether the loop goes on.
unfoldable pub send_one : MediaRetryConfig → MediaRequest → Sending → Pass → Pass × Bool
send_one cfg r e p = if not e.alive then (p, false) else elim (e.error) [
  | some message ↦ if e.mark_fails then (record p { fails = true }, false) else (
    record p {
      store = mark_send_error r.message_id r.chat_jid message cfg.max_attempts e.at p.store;
    },
    true,
  )
  | none ↦
      if e.mark_fails then (record p { fails = true; asked = db_time e.at ∷ p.asked }, false) else (
        record p {
          store = mark_sent r.message_id r.chat_jid e.at p.store;
          sent = p.sent + 1;
          asked = db_time e.at ∷ p.asked;
        },
        true,
      )
]

-- The loop of `Tick` over the due requests.
unfoldable pub send_due :
    MediaRetryConfig → (MediaRequest → Sending) → List MediaRequest → Pass → Pass
send_due cfg env [] p = p
send_due cfg env (r ∷ rs) p =
    let step = send_one cfg r (env r) p in
    elim (step.1) [ true ↦ send_due cfg env rs step.0 | false ↦ step.0 ]

-- What a tick meets: the connection, the clock and the local hour, and the statements that fail.
pub record TickEnv : Type 0 where
  pub connected : Bool
  pub now : ℕ
  pub local_hour : ℕ
  pub expire_fails : Bool
  pub count_fails : Bool
  pub due_fails : Bool
  pub sending : MediaRequest → Sending

abbrev pub idle : Store → List ℕ → Pass
idle s asked = record { store = s; sent = 0; fails = false; asked = asked }

abbrev pub failing : Store → List ℕ → Pass
failing s asked = record { store = s; sent = 0; fails = true; asked = asked }

-- The end of `Tick`: the requests of a budget are selected and sent.
unfoldable pub send_budget : MediaRetryConfig → TickEnv → ℕ → Store → List ℕ → Pass
send_budget cfg e budget s asked =
    if budget == 0
    then idle s asked
    else if e.due_fails
    then failing s asked
    else send_due cfg e.sending (due budget (e.now - cfg.retry_delay) s.requests) (idle s asked)

abbrev pub tick_budget : MediaRetryConfig → TickEnv → Store → ℕ
tick_budget cfg e s =
    media_retry_budget (count_receipts_since (e.now - hour) s.receipts) cfg.max_per_hour
      cfg.batch_size

-- `Tick` after the overdue requests are settled.
unfoldable pub send_outside_quiet_hours : MediaRetryConfig → TickEnv → Store → List ℕ → Pass
send_outside_quiet_hours cfg e s asked =
    if in_quiet_hours cfg e.local_hour
    then idle s asked
    else if e.count_fails
    then failing s asked
    else send_budget cfg e (tick_budget cfg e s) s asked

abbrev pub expired : MediaRetryConfig → TickEnv → Store → Store
expired cfg e s = expire_sent (e.now - cfg.answer_timeout) cfg.max_attempts e.now s

-- `Tick`
unfoldable pub tick : MediaRetryConfig → TickEnv → Store → List ℕ → Pass
tick cfg e s asked =
    if not e.connected
    then idle s asked
    else if e.expire_fails
    then failing s asked
    else send_outside_quiet_hours cfg e (expired cfg e s) asked
