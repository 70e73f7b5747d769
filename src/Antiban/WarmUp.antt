-- ===== src/Antiban/WarmUp.antt =====
-- The warm-up ramp of whatsapp-bridge/internal/antiban/warmup.go. `today_key`, the date of an
-- instant in the local time zone, is a parameter: the standard library formats it. An instant of 0
-- is Go's zero time. A difference of instants that is negative in Go is 0 here, which each of its
-- uses treats alike.
pub mod Ramp
pub mod Days
use whatsapp_mcp_pro.Base.{
  ℕ, ◌+◌, ◌-◌, ◌*◌, ◌/◌, List, [], ◌∷◌, Option, none, some, Bool, true, false, not, ◌&&◌, ◌||◌, ℤ,
  pos, negsuc, ◌+ℤ◌, ltb_ℤ, String, str_eq, ltb, leb, ◌==◌, if◌then◌else◌, min, Dict, lookup,
  insert,
}
use whatsapp_mcp_pro.Antiban.Config.{Config, hour}

abbrev pub warm_up_daily_cap : ℕ
warm_up_daily_cap = 680

abbrev pub warm_up_inactivity_reset : ℕ
warm_up_inactivity_reset = 72 * hour

abbrev pub max_int32 : ℕ
max_int32 = 2_147_483_647

pub record WarmUpState : Type 0 where
  pub start_date : ℕ
  pub day_sent : Dict ℤ
  pub last_send_time : ℕ

unfoldable pub fresh_warm_up_state : ℕ → WarmUpState
fresh_warm_up_state now = record { start_date = now; day_sent = []; last_send_time = 0 }

-- No send for more than 72 hours, if there ever was one.
abbrev pub is_stale : WarmUpState → ℕ → Bool
is_stale s now =
    not (s.last_send_time == 0) && ltb warm_up_inactivity_reset (now - s.last_send_time)

-- `ensureStateLocked`, on a state that is there. A nil map is the empty list.
unfoldable pub ensure_state : WarmUpState → ℕ → WarmUpState
unfolding fresh_warm_up_state
ensure_state s now =
    if is_stale s now
    then fresh_warm_up_state now
    else record s { start_date = if s.start_date == 0 then now else s.start_date }

-- `dayLocked`
unfoldable pub day : WarmUpState → ℕ → ℕ
day s now = if s.start_date == 0 then 0 else (now - s.start_date) / (24 * hour)

-- `startLimit` after its two bounds.
unfoldable pub start_limit : ℤ → ℕ
start_limit (negsuc n) = 0
start_limit (pos n) = if ltb warm_up_daily_cap n then warm_up_daily_cap else n

-- The ramp itself: the limit of a day, given the number of warm-up days and the first limit.
unfoldable pub ramp : ℕ → ℕ → ℕ → ℕ
ramp days start d =
    let limit = start + d * (warm_up_daily_cap - start) / (days - 1) in
    if days == 1 then start else if ltb warm_up_daily_cap limit then warm_up_daily_cap else limit

-- `dailyLimitLocked`
unfoldable pub limit_on_day : Config → ℕ → ℕ
limit_on_day cfg d = elim (cfg.warm_up_days) [
  | negsuc n ↦ max_int32
  | pos days ↦
      if days == 0 || leb days d
      then max_int32
      else ramp days (start_limit cfg.warm_up_start_limit) d
]

unfoldable pub daily_limit_locked : Config → WarmUpState → ℕ → ℕ
daily_limit_locked cfg s now = limit_on_day cfg (day s now)

-- Reading `DaySent`: a missing day reads as 0.
unfoldable pub sent_on : WarmUpState → String → ℤ
sent_on s key = elim (lookup key s.day_sent) [ none ↦ pos 0 | some n ↦ n ]

-- The file as `loadState` finds it, and `validate`.
pub data WarmUpFile : Type 0 where
  missing unreadable : WarmUpFile
  parsed : WarmUpState → WarmUpFile

unfoldable pub any_negative : Dict ℤ → Bool
any_negative [] = false
any_negative ((_, n) ∷ rest) = ltb_ℤ n (pos 0) || any_negative rest

unfoldable pub validate : WarmUpState → ℕ → Bool
unfolding any_negative
validate s now =
    not (ltb (now + hour) s.start_date)
    && (not (ltb (now + hour) s.last_send_time) && not (any_negative s.day_sent))

-- The state that `NewWarmUp` starts from, and whether the file was moved aside.
unfoldable pub load_warm_up : WarmUpFile → ℕ → WarmUpState × Bool
unfolding fresh_warm_up_state
load_warm_up missing now = (fresh_warm_up_state now, false)
load_warm_up unreadable now = (fresh_warm_up_state now, true)
load_warm_up (parsed s) now =
    let dated : WarmUpState = record s {
      start_date = if s.start_date == 0 then now else s.start_date;
    } in
    if validate s now
    then (if is_stale dated now then fresh_warm_up_state now else dated, false)
    else (fresh_warm_up_state now, true)

-- `NewWarmUp`: none is its one error, an empty path.
unfoldable pub new_warm_up : Config → WarmUpFile → ℕ → Option (WarmUpState × Bool)
new_warm_up cfg file now =
    if str_eq cfg.warm_up_state_path "" then none else some (load_warm_up file now)

module _ (today_key : ℕ → String) where
  -- `CanSend`: the state after its upkeep, and the answer.
  unfoldable pub can_send : Config → WarmUpState → ℕ → WarmUpState × Bool
  can_send cfg s now =
      let s' = ensure_state s now in
      (s', ltb_ℤ (sent_on s' (today_key now)) (pos (daily_limit_locked cfg s' now)))

  -- `RecordSend`, before the state is saved.
  unfoldable pub record_send : WarmUpState → ℕ → WarmUpState
  record_send s now =
      let s' = ensure_state s now in
      record s' {
        day_sent = insert (today_key now) (sent_on s' (today_key now) +ℤ pos 1) s'.day_sent;
        last_send_time = now;
      }

-- `DailyLimit`, `Day` and `TodaySent`
unfoldable pub daily_limit : Config → WarmUpState → ℕ → WarmUpState × ℕ
daily_limit cfg s now = let s' = ensure_state s now in (s', daily_limit_locked cfg s' now)
