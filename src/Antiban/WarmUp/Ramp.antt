-- ===== src/Antiban/WarmUp/Ramp.antt =====
-- The shape of the warm-up ramp.
use native.Mathlib.Nat.{le-div_iff_mul-le, mul-div_cancel_left, div-mul-le_self}
use whatsapp_mcp_pro.Base.{ℕ, ◌*◌, ◌-◌, ◌/◌, ◌≤◌, ◌<◌, ◌≡◌, ℤ, pos, negsuc, arith}
use whatsapp_mcp_pro.Antiban.Config.{Config}
use whatsapp_mcp_pro.Antiban.WarmUp.{warm_up_daily_cap, start_limit, ramp, limit_on_day}

start_limit-le-cap : (l : ℤ) → start_limit l ≤ warm_up_daily_cap
unfolding start_limit
start_limit-le-cap (negsuc n) = omega arith
start_limit-le-cap (pos n) = ground arith

div_mono : (a b n : ℕ) → 0 < n → a ≤ b → a / n ≤ b / n
div_mono a b n p h = (le-div_iff_mul-le p).1 (omega (arith, div-mul-le_self a n))

ramp_mono : (days start d e : ℕ) → 1 < days → d ≤ e → ramp days start d ≤ ramp days start e
unfolding ramp
ramp_mono days start d e p h =
    let room = warm_up_daily_cap - start in
    let le : d * room ≤ e * room = grind arith in
    ground (arith, div_mono (d * room) (e * room) (days - 1) (omega arith) le)

ramp-last :
    (days start : ℕ)
    → 1 < days
    → start ≤ warm_up_daily_cap
    → ramp days start (days - 1) ≡ warm_up_daily_cap
unfolding ramp
ramp-last days start p h =
    ground (arith, mul-div_cancel_left (warm_up_daily_cap - start) {n = days - 1} (omega arith))

ramp-ge : (days start d : ℕ) → start ≤ warm_up_daily_cap → start ≤ ramp days start d
unfolding ramp
ramp-ge days start d h = ground arith

ramp-le : (days start d : ℕ) → start ≤ warm_up_daily_cap → ramp days start d ≤ warm_up_daily_cap
unfolding ramp
ramp-le days start d h = ground arith

-- With a warm-up of two days or more: on each of its days the limit lies between the configured
-- first limit, as bounded, and the daily cap; it never falls from such a day to a later one, also
-- past the end of the warm-up; and the last day reaches the cap exactly.
pub limit_on_day_shape :
    (cfg : Config) (days d e : ℕ)
    → cfg.warm_up_days ≡ pos days
    → 1 < days
    → d < days
    → d ≤ e
    → (start_limit cfg.warm_up_start_limit ≤ limit_on_day cfg d)
      × (limit_on_day cfg d ≤ warm_up_daily_cap)
      × (limit_on_day cfg d ≤ limit_on_day cfg e)
      × (limit_on_day cfg (days - 1) ≡ warm_up_daily_cap)
unfolding limit_on_day
limit_on_day_shape cfg days d e set many short h =
    let start = start_limit cfg.warm_up_start_limit in
    let capped = start_limit-le-cap cfg.warm_up_start_limit in
    rw (set, limit_on_day)
      (
        ground (arith, ramp-ge days start d capped),
        ground (arith, ramp-le days start d capped),
        ground (arith, ramp_mono days start d e, ramp-le days start d capped),
        ground (arith, ramp-last days start many capped),
      )
