-- ===== src/Phone/Runs.antt =====
-- What happens to the monitor of whatsapp-bridge/internal/whatsapp/phoneping.go, in any order: events,
-- checks and restarts of the bridge. The check that OfflineSyncCompleted starts is a step of its own.
use whatsapp_mcp_pro.Base.{
  ℕ, List, [], ◌∷◌, ◌++◌, Option, some, Bool, true, ◌&&◌, ◌==◌, if◌then◌else◌,
}
use whatsapp_mcp_pro.Phone.Monitor.{PhoneMonitor, new_phone_monitor, phone_seen, check}

-- `isFromPrimaryPhone`
abbrev pub is_from_primary_phone : Bool → ℕ → Bool
is_from_primary_phone is_from_me device = is_from_me && device == 0

pub data PhoneEvent : Type 0 where
  message : Bool → ℕ → Option ℕ → PhoneEvent
  receipt : Bool → ℕ → Option ℕ → PhoneEvent
  media_retry : Option ℕ → PhoneEvent
  pair_success : PhoneEvent
  offline_sync_completed : PhoneEvent
  other : PhoneEvent

-- `handleEvent`
unfoldable pub handle_event : Bool → ℕ → PhoneEvent → PhoneMonitor → PhoneMonitor
handle_event saves now (message is_from_me device ts) m =
    if is_from_primary_phone is_from_me device then phone_seen saves ts now m else m
handle_event saves now (receipt is_from_me device ts) m =
    if is_from_primary_phone is_from_me device then phone_seen saves ts now m else m
handle_event saves now (media_retry ts) m = phone_seen saves ts now m
handle_event saves now pair_success m = phone_seen saves (some now) now m
handle_event saves now offline_sync_completed m = m
handle_event saves now other m = m

pub data Step : Type 0 where
  event : PhoneEvent → ℕ → Step
  checks : Bool → ℕ → Step
  restart : Bool → ℕ → ℕ → Step

-- A step with a store that takes every save, and the instants at which it pings.
unfoldable pub perform : Step → PhoneMonitor → PhoneMonitor × List ℕ
perform (event e now) m = (handle_event true now e m, [])
perform (checks linked now) m =
    let done = check linked true now m in (done.0, if done.1.pings then now ∷ [] else [])
perform (restart ping_enabled ping_after now) m =
    (new_phone_monitor ping_enabled ping_after true now m.row, [])

unfoldable pub run : List Step → PhoneMonitor → PhoneMonitor × List ℕ
run [] m = (m, [])
run (s ∷ ss) m = let first = perform s m in let rest = run ss first.0 in (rest.0, first.1 ++ rest.1)
