-- ===== src/Antiban/Health/Score.antt =====
-- The health score's bounds, its hysteresis, and the end of a pause.
use whatsapp_mcp_pro.Base.{
  ℕ, zero, suc, ◌+◌, ◌*◌, ◌≤◌, ◌≡◌, ◌∙◌, refl, ◌⊎◌, true, false, ℤ, pos, ◌≤ℤ◌, pos_part, leb_ℤ,
  arith, List, [], ◌∷◌,
}
use whatsapp_mcp_pro.Antiban.Health.{
  HealthEventType, HealthMonitor, health_decay_step, new_health_monitor, apply_delta,
  delta_for_event, record_event, tick,
}

-- The score lies in 0..100; at the pause threshold and above, sends are paused; while they are
-- paused, the score is above the resume threshold or at the pause threshold.
pub record Inv (h : HealthMonitor) : Type 0 where
  pub nonneg : pos 0 ≤ℤ h.score
  pub at_most_100 : h.score ≤ℤ pos 100
  pub risky_paused : h.pause_threshold ≤ℤ h.score → h.paused ≡ true
  pub paused_risky :
      h.paused ≡ true → (h.pause_threshold ≤ℤ h.score) ⊎ (leb_ℤ h.score h.resume_threshold ≡ false)
  pub threshold : pos 1 ≤ℤ h.pause_threshold
  pub resume : h.resume_threshold ≡ pos 30

-- A new monitor satisfies the invariant, whatever threshold is configured.
pub new_health_monitor-Inv : (threshold interval : ℤ) → Inv (new_health_monitor threshold interval)
unfolding new_health_monitor
new_health_monitor-Inv threshold interval = ground arith

apply_delta-Inv : (h : HealthMonitor) (d : ℤ) → Inv h → Inv (apply_delta h d)
unfolding apply_delta
apply_delta-Inv h d i = ground arith

-- What a monitor is fed: an event of the bridge, or a round of the decay loop.
pub data Feed : Type 0 where
  event : HealthEventType → Feed
  decay : Feed

unfoldable pub feed : HealthMonitor → List Feed → HealthMonitor
feed h [] = h
feed h (event e ∷ fs) = feed (record_event h e) fs
feed h (decay ∷ fs) = feed (tick h) fs

tick-Inv : (h : HealthMonitor) → Inv h → Inv (tick h)
unfolding tick
tick-Inv h i = ground (arith, apply_delta-Inv h health_decay_step)

feed-Inv_from : (h : HealthMonitor) (fs : List Feed) → Inv h → Inv (feed h fs)
unfolding feed record_event
feed-Inv_from h [] i = i
feed-Inv_from h (event e ∷ fs) i =
    feed-Inv_from (record_event h e) fs (apply_delta-Inv h (delta_for_event e) i)
feed-Inv_from h (decay ∷ fs) i = feed-Inv_from (tick h) fs (tick-Inv h i)

-- Whatever events and decay rounds a new monitor is fed: the score stays in 0..100, sends are
-- paused whenever it is at the pause threshold or above, and a pause holds only while the score is
-- at the pause threshold or above, or above the resume threshold.
pub feed-Inv :
    (threshold interval : ℤ) (fs : List Feed)
    → Inv (feed (new_health_monitor threshold interval) fs)
feed-Inv threshold interval fs = feed-Inv_from _ fs (new_health_monitor-Inv threshold interval)

-- Rounds of the decay loop.
unfoldable pub ticks : ℕ → HealthMonitor → HealthMonitor
ticks zero h = h
ticks (suc n) h = ticks n (tick h)

tick-score :
    (h : HealthMonitor) (k : ℕ)
    → h.closed ≡ false
    → Inv h
    → pos_part h.score ≤ k + 3
    → (pos_part (tick h).score ≤ k) × ((tick h).closed ≡ false)
unfolding tick apply_delta
tick-score h k o i le = ground arith

tick_unpaused :
    (h : HealthMonitor) → h.closed ≡ false → Inv h → pos_part h.score ≤ 3 → (tick h).paused ≡ false
unfolding tick apply_delta
tick_unpaused h o i le = ground arith

ticks_unpaused_from :
    (n : ℕ) (h : HealthMonitor)
    → h.closed ≡ false
    → Inv h
    → pos_part h.score ≤ 3 * n + 3
    → (ticks (suc n) h).paused ≡ false
unfolding ticks
ticks_unpaused_from zero h o i le = tick_unpaused h o i (omega arith)
ticks_unpaused_from (suc n) h o i le =
    let (low, o') = tick-score h (3 * n + 3) o i (omega arith) in
    ticks_unpaused_from n (tick h) o' (tick-Inv h i) low

feed-closed : (h : HealthMonitor) (fs : List Feed) → (feed h fs).closed ≡ h.closed
unfolding feed record_event tick apply_delta
feed-closed h [] = refl
feed-closed h (event e ∷ fs) = feed-closed (record_event h e) fs
feed-closed h (decay ∷ fs) = feed-closed (tick h) fs ∙ ground arith

-- A pause ends by itself: from any state that a monitor reaches by events and decay rounds, 34
-- rounds of the decay loop with no other event end it.
pub ticks_unpaused :
    (threshold interval : ℤ) (fs : List Feed)
    → (ticks 34 (feed (new_health_monitor threshold interval) fs)).paused ≡ false
unfolding new_health_monitor
ticks_unpaused threshold interval fs =
    let i = feed-Inv threshold interval fs in
    ticks_unpaused_from 33 _ (feed-closed (new_health_monitor threshold interval) fs) i
      (ground (arith, i.at_most_100))
