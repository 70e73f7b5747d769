-- ===== src/Reachout/Held.antt =====
-- How long new contacts are refused after an answer 463: whatsapp-bridge/internal/whatsapp/reachout.go,
-- over further answers and restarts, and with a notification in between.
use whatsapp_mcp_pro.Base.{
  ℕ, ◌+◌, ◌*◌, ◌/◌, ◌<◌, ◌≤◌, ◌≡◌, ◌∙◌, refl, ap, sym, List, [], ◌∷◌, Option, none, some, Bool,
  true, arith, All, Option-cases, inl, inr,
}
use whatsapp_mcp_pro.Reachout.Tracker.{
  second, ReachoutTracker, reachout_timelock_until, set_reachout_timelock, next_expiry,
  record_reachout_timelock, handle_reachout_notification, enable_reachout_tracking, is_new_contact,
  check_reachout_gate,
}

-- Another answer 463, with the default duration, or a restart.
pub data Step : Type 0 where
  refused : ℕ → ℕ → Step
  restart : ℕ → Step

abbrev pub Until : ℕ → Step → Type 0
Until now (refused duration at) = at ≤ now
Until now (restart at) = at ≤ now

unfoldable pub run : List Step → ReachoutTracker → ReachoutTracker
run [] t = t
run (refused duration at ∷ ss) t = run ss (record_reachout_timelock duration at t)
run (restart at ∷ ss) t = run ss (enable_reachout_tracking at t.saved)

-- The lock stands, and its seconds are saved.
record Held (k : ℕ) (t : ReachoutTracker) : Type 0 where
  expiry : ℕ
  set : t.until ≡ some expiry
  kept : t.saved ≡ some (expiry / second)
  long : k ≤ expiry / second

record_reachout_timelock-Held :
    (k duration at : ℕ) (t : ReachoutTracker)
    → Held k t
    → Held k (record_reachout_timelock duration at t)
unfolding record_reachout_timelock set_reachout_timelock next_expiry reachout_timelock_until
record_reachout_timelock-Held k duration at t h =
    let grows : h.expiry ≤ next_expiry duration at t = ground (arith, h.set) in
    record {
      expiry = next_expiry duration at t;
      set = refl;
      kept = refl;
      long = omega (arith, grows, h.long);
    }

enable_reachout_tracking-Held :
    (k at : ℕ) (t : ReachoutTracker)
    → at < k * second
    → Held k t
    → Held k (enable_reachout_tracking at t.saved)
unfolding enable_reachout_tracking
enable_reachout_tracking-Held k at t early h =
    let s = h.expiry / second in
    let whole : s * second / second ≡ s = omega arith in
    let live : at < s * second = omega (arith, early, h.long) in
    record {
      expiry = s * second;
      set = ground (arith, h.kept, live);
      kept = h.kept ∙ ap some (sym whole);
      long = omega (arith, whole, h.long);
    }

run-Held :
    (k now : ℕ) (ss : List Step) (t : ReachoutTracker)
    → now < k * second
    → All (Until now) ss
    → Held k t
    → Held k (run ss t)
unfolding run
run-Held k now [] t early before h = h
run-Held k now (refused duration at ∷ ss) t early before h =
    run-Held k now ss (record_reachout_timelock duration at t) early before.1
      (record_reachout_timelock-Held k duration at t h)
run-Held k now (restart at ∷ ss) t early before h =
    run-Held k now ss (enable_reachout_tracking at t.saved) early before.1
      (enable_reachout_tracking-Held k at t (omega (arith, early, before.0)) h)

next_expiry-long :
    (duration at : ℕ) (t : ReachoutTracker) → at + duration ≤ next_expiry duration at t
unfolding next_expiry
next_expiry-long duration at t = elim (Option-cases (reachout_timelock_until at t)) [
  | inl free ↦ ground (arith, free)
  | inr (u, locked) ↦ ground (arith, locked)
]

record-Held :
    (duration at : ℕ) (t : ReachoutTracker)
    → Held (next_expiry duration at t / second) (record_reachout_timelock duration at t)
unfolding record_reachout_timelock set_reachout_timelock
record-Held duration at t = record {
  expiry = next_expiry duration at t;
  set = refl;
  kept = refl;
  long = omega arith;
}

-- After an answer 463 every first contact is refused until less than a second before the default
-- duration is over, and told a later instant: over any further answers and restarts before it, as
-- long as no notification comes and the store takes every save.
pub refused-gate :
    (duration at now : ℕ) (ss : List Step) (t : ReachoutTracker) (history : Option Bool)
    → is_new_contact true history ≡ true
    → All (Until now) ss
    → now + second ≤ at + duration
    → (expiry : ℕ) × ((now < expiry)
        × (check_reachout_gate now true history (run ss (record_reachout_timelock duration at t))
            ≡ some expiry))
unfolding check_reachout_gate reachout_timelock_until
refused-gate duration at now ss t history new before early =
    let first = record_reachout_timelock duration at t in
    let k = next_expiry duration at t / second in
    let enough : at + duration ≤ next_expiry duration at t = next_expiry-long duration at t in
    let soon : now < k * second = omega (arith, enough, early) in
    let h = run-Held k now ss first soon before (record-Held duration at t) in
    let live : now < h.expiry = omega (arith, soon, h.long) in
    (h.expiry, (live, ground (arith, new, h.set, live)))

-- A notification between the two halves of recordReachoutTimelock is overwritten: with no lock
-- before, and an enforcement that ends after the default duration, first contacts are let through
-- in between.
pub notification-lost :
    (duration at now ends : ℕ) (t : ReachoutTracker) (history : Option Bool)
    → reachout_timelock_until at t ≡ none
    → at + duration ≤ now
    → now < ends
    → is_new_contact true history ≡ true
    → (check_reachout_gate now true history
          (handle_reachout_notification duration at true (some ends) t)
        ≡ some ends)
      × (check_reachout_gate now true history (
            set_reachout_timelock
              (some (next_expiry duration at t))
              (handle_reachout_notification duration at true (some ends) t))
          ≡ none)
unfolding check_reachout_gate reachout_timelock_until handle_reachout_notification
    set_reachout_timelock next_expiry
notification-lost duration at now ends t history free late early new =
    (ground (arith, new, early), ground (arith, free, late))
