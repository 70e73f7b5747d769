-- ===== src/Reachout/Tracker.antt =====
-- `reachoutTracker` of whatsapp-bridge/internal/whatsapp/reachout.go, and the entry of bridge_state in
-- database/send_state.go that keeps it, in seconds. Instants are nanoseconds. recordReachoutTimelock
-- reads the lock and sets it under two locks of the mutex, so its two halves are two steps. The store
-- takes every save; the events that go to antiban and the log are left out.
use whatsapp_mcp_pro.Base.{
  ℕ, ◌+◌, ◌*◌, ◌/◌, Option, none, some, Bool, true, false, not, ◌&&◌, ℤ, pos, negsuc, ltb, ◌==◌,
  if◌then◌else◌,
}

abbrev pub second : ℕ
second = 1_000_000_000

-- `reachoutDefaultDuration`; none is a variable that is unset or does not parse.
unfoldable pub reachout_default_duration : Option ℤ → ℕ
reachout_default_duration none = 24 * (3600 * second)
reachout_default_duration (some (pos d)) = if d == 0 then 24 * (3600 * second) else d
reachout_default_duration (some (negsuc d)) = 24 * (3600 * second)

-- `reachoutTracker`, with the entry of its store.
pub record ReachoutTracker : Type 0 where
  pub until : Option ℕ
  pub saved : Option ℕ

abbrev pub after : ℕ → Option ℕ → Option ℕ
after now none = none
after now (some t) = if ltb now t then some t else none

-- `ReachoutTimelockUntil`
unfoldable pub reachout_timelock_until : ℕ → ReachoutTracker → Option ℕ
reachout_timelock_until now t = after now t.until

-- `SetBridgeStateTime`
abbrev pub to_seconds : Option ℕ → Option ℕ
to_seconds none = none
to_seconds (some t) = some (t / second)

-- `GetBridgeStateTime`
abbrev pub from_seconds : Option ℕ → Option ℕ
from_seconds none = none
from_seconds (some s) = some (s * second)

-- `setReachoutTimelock`
unfoldable pub set_reachout_timelock : Option ℕ → ReachoutTracker → ReachoutTracker
set_reachout_timelock until t = record { until = until; saved = to_seconds until }

abbrev pub longer : ℕ → Option ℕ → ℕ
longer until none = until
longer until (some current) = if ltb until current then current else until

-- The first half of `recordReachoutTimelock`: the expiry that it will set.
unfoldable pub next_expiry : ℕ → ℕ → ReachoutTracker → ℕ
next_expiry duration now t = longer (now + duration) (reachout_timelock_until now t)

-- `recordReachoutTimelock`
unfoldable pub record_reachout_timelock : ℕ → ℕ → ReachoutTracker → ReachoutTracker
record_reachout_timelock duration now t =
    set_reachout_timelock (some (next_expiry duration now t)) t

-- `handleReachoutNotification`: whether the lock is active, and when its enforcement ends.
unfoldable pub handle_reachout_notification :
    ℕ → ℕ → Bool → Option ℕ → ReachoutTracker → ReachoutTracker
handle_reachout_notification duration now false ends t = set_reachout_timelock none t
handle_reachout_notification duration now true none t =
    set_reachout_timelock (some (now + duration)) t
handle_reachout_notification duration now true (some ends) t = set_reachout_timelock (some ends) t

-- `EnableReachoutTracking`, at a start of the bridge.
unfoldable pub enable_reachout_tracking : ℕ → Option ℕ → ReachoutTracker
enable_reachout_tracking now saved = record {
  until = after now (from_seconds saved);
  saved = saved;
}

-- `isNewContact`; none is a store that is missing or does not answer.
unfoldable pub is_new_contact : Bool → Option Bool → Bool
is_new_contact is_user_chat none = is_user_chat
is_new_contact is_user_chat (some existing) = is_user_chat && not existing

-- `checkReachoutGate`: when a refused send may be tried again.
unfoldable pub check_reachout_gate : ℕ → Bool → Option Bool → ReachoutTracker → Option ℕ
check_reachout_gate now is_user_chat history t =
    if is_new_contact is_user_chat history then reachout_timelock_until now t else none
