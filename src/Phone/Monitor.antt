-- ===== src/Phone/Monitor.antt =====
-- `PhoneMonitor` of whatsapp-bridge/internal/whatsapp/phoneping.go and the row of
-- database/phone_status.go. Instants are nanoseconds, and none is Go's zero time. `saves` says whether
-- SQLite takes a save; a save that fails is only logged. The texts of the log are left out.
use whatsapp_mcp_pro.Base.{
  ℕ, ◌+◌, ◌-◌, ◌*◌, ◌/◌, Option, none, some, Bool, true, false, not, ◌&&◌, ◌||◌, ltb, leb, ◌==◌,
  if◌then◌else◌, is_some,
}

abbrev pub millisecond : ℕ
millisecond = 1_000_000

abbrev pub hour : ℕ
hour = 3_600_000_000_000

abbrev pub day : ℕ
day = 24 * hour

-- `PhoneStatus`
pub record PhoneStatus : Type 0 where
  pub last_seen : Option ℕ
  pub last_pinged : Option ℕ
  pub tracking_since : Option ℕ

-- The row of `phone_status`, in milliseconds.
pub record SavedStatus : Type 0 where
  pub seen_ms : Option ℕ
  pub pinged_ms : Option ℕ
  pub since_ms : Option ℕ

-- `timeToMs`
abbrev pub time_to_ms : Option ℕ → Option ℕ
time_to_ms none = none
time_to_ms (some t) = some (t / millisecond)

-- `msToTime`
abbrev pub ms_to_time : Option ℕ → Option ℕ
ms_to_time none = none
ms_to_time (some ms) = some (ms * millisecond)

-- `LoadPhoneStatus`
unfoldable pub load_phone_status : Option SavedStatus → PhoneStatus
load_phone_status none = record { last_seen = none; last_pinged = none; tracking_since = none }
load_phone_status (some row) = record {
  last_seen = ms_to_time row.seen_ms;
  last_pinged = ms_to_time row.pinged_ms;
  tracking_since = ms_to_time row.since_ms;
}

-- `SavePhoneStatus`
unfoldable pub save_phone_status : PhoneStatus → SavedStatus
save_phone_status st = record {
  seen_ms = time_to_ms st.last_seen;
  pinged_ms = time_to_ms st.last_pinged;
  since_ms = time_to_ms st.tracking_since;
}

pub data AlertLevel : Type 0 where
  quiet warn error : AlertLevel

abbrev pub rank : AlertLevel → ℕ
rank quiet = 0
rank warn = 1
rank error = 2

-- `PhoneMonitor`, with the row that its store holds. A PHONE_OFFLINE_PING_AFTER below 0 is 0 here.
pub record PhoneMonitor : Type 0 where
  pub ping_enabled : Bool
  pub ping_after : ℕ
  pub state : PhoneStatus
  pub last_alert_at : Option ℕ
  pub last_alert_level : AlertLevel
  pub row : Option SavedStatus

-- `saveLocked`
unfoldable pub save_locked : Bool → PhoneMonitor → PhoneMonitor
save_locked saves m = if saves then record m { row = some (save_phone_status m.state) } else m

-- `newPhoneMonitor`
unfoldable pub new_phone_monitor : Bool → ℕ → Bool → ℕ → Option SavedStatus → PhoneMonitor
new_phone_monitor ping_enabled ping_after saves now row =
    let st = load_phone_status row in
    let m : PhoneMonitor = record {
      ping_enabled = ping_enabled;
      ping_after = ping_after;
      state = st;
      last_alert_at = none;
      last_alert_level = quiet;
      row = row;
    } in
    if is_some st.tracking_since
    then m
    else save_locked saves (record m { state = record st { tracking_since = some now } })

-- `phoneSeenWorthSaving`
abbrev pub phone_seen_worth_saving : Option ℕ → ℕ → Bool
phone_seen_worth_saving none ts = true
phone_seen_worth_saving (some prev) ts = leb (prev + hour) ts

-- What `phoneSeen` takes for the instant of a sighting.
abbrev pub clamp_to_now : Option ℕ → ℕ → ℕ
clamp_to_now none now = now
clamp_to_now (some ts) now = if ltb now ts then now else ts

-- `phoneSeen`
unfoldable pub phone_seen : Bool → Option ℕ → ℕ → PhoneMonitor → PhoneMonitor
phone_seen saves ts now m =
    let at = clamp_to_now ts now in
    if not (phone_seen_worth_saving m.state.last_seen at)
    then m
    else save_locked saves (record m {
      state = record (m.state) { last_seen = some at };
      last_alert_level = quiet;
      last_alert_at = none;
    })

-- The instant that an outage is measured from.
abbrev pub reference : PhoneStatus → Option ℕ
reference st = if is_some st.last_seen then st.last_seen else st.tracking_since

abbrev pub since : Option ℕ → ℕ → ℕ
since none now = 0
since (some ref) now = if ltb now ref then 0 else now - ref

-- `phoneOfflineFor`
unfoldable pub phone_offline_for : PhoneStatus → ℕ → ℕ
phone_offline_for st now = since (reference st) now

-- `Status`
unfoldable pub status : ℕ → PhoneMonitor → Option (Option ℕ × ℕ)
status now m =
    if not (is_some m.state.last_seen) && not (is_some m.state.tracking_since)
    then none
    else some (m.state.last_seen, phone_offline_for m.state now)

-- `phoneAlertLevelFor`
unfoldable pub phone_alert_level_for : ℕ → AlertLevel
phone_alert_level_for offline =
    if ltb (12 * day) offline then error else if ltb (7 * day) offline then warn else quiet

abbrev pub a_day_ago : Option ℕ → ℕ → Bool
a_day_ago none now = true
a_day_ago (some at) now = leb (at + day) now

-- `shouldLogPhoneAlert`
unfoldable pub should_log_phone_alert : AlertLevel → AlertLevel → Option ℕ → ℕ → Bool
should_log_phone_alert level last_level last_at now =
    if rank level == 0
    then false
    else if ltb (rank last_level) (rank level) || not (is_some last_at)
    then true
    else a_day_ago last_at now

-- `shouldPingPhone`
unfoldable pub should_ping_phone : ℕ → Option ℕ → ℕ → ℕ → Bool
should_ping_phone offline last_pinged now ping_after =
    if ping_after == 0 || leb offline ping_after then false else a_day_ago last_pinged now

-- What `check` does besides: the level that it logs, and whether it pings.
pub record Checked : Type 0 where
  pub logs : Option AlertLevel
  pub pings : Bool

-- `check`
unfoldable pub check : Bool → Bool → ℕ → PhoneMonitor → PhoneMonitor × Checked
check linked saves now m =
    let offline = phone_offline_for m.state now in
    let level = phone_alert_level_for offline in
    let alert = should_log_phone_alert level m.last_alert_level m.last_alert_at now in
    let do_ping =
      m.ping_enabled && should_ping_phone offline m.state.last_pinged now m.ping_after in
    let alerted =
      if alert then record m { last_alert_level = level; last_alert_at = some now } else m in
    let pinged =
      if do_ping
      then save_locked saves
          (record alerted { state = record (m.state) { last_pinged = some now } })
      else alerted in
    if not linked
    then (m, record { logs = none; pings = false })
    else (pinged, record { logs = if alert then some level else none; pings = do_ping })
