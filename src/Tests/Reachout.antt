-- ===== src/Tests/Reachout.antt =====
-- Instances for whatsapp-bridge/internal/whatsapp/reachout.go.
use whatsapp_mcp_pro.Base.{ℕ, ◌*◌, ◌<◌, ◌≡◌, refl, List, [], ◌∷◌, none, some, true, false, arith}
use whatsapp_mcp_pro.Reachout.Tracker.{
  second, ReachoutTracker, reachout_timelock_until, set_reachout_timelock, next_expiry,
  record_reachout_timelock, handle_reachout_notification, is_new_contact, check_reachout_gate,
}
use whatsapp_mcp_pro.Reachout.Held.{Step, refused, restart, run, refused-gate, notification-lost}

abbrev hour : ℕ
hour = 3600 * second

abbrev free : ReachoutTracker
free = record { until = none; saved = none }

abbrev steps : List Step
steps = restart (2 * hour) ∷ refused hour (3 * hour) ∷ restart (5 * hour) ∷ []

no_history : is_new_contact true (some false) ≡ true
unfolding is_new_contact
no_history = refl

is_free : reachout_timelock_until hour free ≡ none
unfolding reachout_timelock_until
is_free = refl

refused-gate_example :
    (expiry : ℕ) × ((20 * hour < expiry)
      × (check_reachout_gate
            (20 * hour)
            true
            (some false)
            (run steps (record_reachout_timelock (24 * hour) hour free))
          ≡ some expiry))
refused-gate_example =
    refused-gate (24 * hour) hour (20 * hour) steps free (some false) no_history
      (omega arith, (omega arith, (omega arith, tt))) (omega arith)

-- The enforcement ends after three days.
notification-lost_example :
    (check_reachout_gate
        (30 * hour)
        true
        (some false)
        (handle_reachout_notification (24 * hour) hour true (some (72 * hour)) free)
      ≡ some (72 * hour))
    × (check_reachout_gate (30 * hour) true (some false) (
          set_reachout_timelock
            (some (next_expiry (24 * hour) hour free))
            (handle_reachout_notification (24 * hour) hour true (some (72 * hour)) free))
        ≡ none)
notification-lost_example =
    notification-lost (24 * hour) hour (30 * hour) (72 * hour) free (some false) is_free
      (omega arith) (omega arith) no_history
