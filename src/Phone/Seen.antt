-- ===== src/Phone/Seen.antt =====
-- When the phone was last seen: `phoneSeen` of whatsapp-bridge/internal/whatsapp/phoneping.go, over
-- any events, checks and restarts. The table keeps milliseconds.
use whatsapp_mcp_pro.Base.{
  ℕ, ◌+◌, ◌≤◌, ◌≡◌, ◌∙◌, refl, ap, sym, subst, List, [], ◌∷◌, Option, none, some, Bool, true, arith,
  Bool-cases, inl, inr, if_ind, NotBefore, All,
}
use whatsapp_mcp_pro.Phone.Monitor.{
  hour, SavedStatus, time_to_ms, ms_to_time, load_phone_status, save_phone_status, PhoneMonitor,
  save_locked, new_phone_monitor, phone_seen_worth_saving, clamp_to_now, phone_seen, check,
}
use whatsapp_mcp_pro.Phone.Runs.{
  is_from_primary_phone, PhoneEvent, message, receipt, media_retry, pair_success,
  offline_sync_completed, other, handle_event, Step, event, checks, restart, perform, run,
}
use whatsapp_mcp_pro.Phone.Pings.{time_to_ms-ms_to_time}

-- The clock of a step reads at most an instant.
abbrev pub Until : ℕ → Step → Type 0
Until limit (event e now) = now ≤ limit
Until limit (checks linked now) = now ≤ limit
Until limit (restart ping_enabled ping_after now) = now ≤ limit

abbrev pub NotAfter : ℕ → Option ℕ → Type 0
NotAfter limit none = Unit
NotAfter limit (some t) = t ≤ limit

abbrev row_seen : Option SavedStatus → Option ℕ
row_seen none = none
row_seen (some row) = row.seen_ms

-- The table knows the last sighting, which is not before one instant and not after another.
pub record SeenIn (first : Option ℕ) (limit : ℕ) (m : PhoneMonitor) : Type 0 where
  pub saved : row_seen m.row ≡ time_to_ms m.state.last_seen
  pub forward : NotBefore (time_to_ms first) (time_to_ms m.state.last_seen)
  pub past : NotAfter limit m.state.last_seen

clamp_to_now-NotAfter : (ts : Option ℕ) (now limit : ℕ) → now ≤ limit → clamp_to_now ts now ≤ limit
clamp_to_now-NotAfter none now limit h = h
clamp_to_now-NotAfter (some ts) now limit h = ground (arith, h)

worth_saving-forward :
    (first last : Option ℕ) (at : ℕ)
    → phone_seen_worth_saving last at ≡ true
    → NotBefore (time_to_ms first) (time_to_ms last)
    → NotBefore (time_to_ms first) (time_to_ms (some at))
worth_saving-forward none last at worth h = tt
worth_saving-forward (some f) none at worth h = absurd h
worth_saving-forward (some f) (some l) at worth h =
    let long : l + hour ≤ at = ground (arith, worth) in omega (arith, h, long)

phone_seen-SeenIn :
    (ts : Option ℕ) (now : ℕ) (m : PhoneMonitor) (first : Option ℕ) (limit : ℕ)
    → now ≤ limit
    → SeenIn first limit m
    → SeenIn first limit (phone_seen true ts now m)
unfolding phone_seen save_locked save_phone_status
phone_seen-SeenIn ts now m first limit early h =
    let at = clamp_to_now ts now in
    elim (Bool-cases (phone_seen_worth_saving m.state.last_seen at)) [
      | inr stale ↦ rw stale h
      | inl worth ↦ rw worth record {
        saved = refl;
        forward = worth_saving-forward first m.state.last_seen at worth h.forward;
        past = clamp_to_now-NotAfter ts now limit early;
      }
    ]

handle_event-SeenIn :
    (e : PhoneEvent) (now : ℕ) (m : PhoneMonitor) (first : Option ℕ) (limit : ℕ)
    → now ≤ limit
    → SeenIn first limit m
    → SeenIn first limit (handle_event true now e m)
unfolding handle_event
handle_event-SeenIn (message is_from_me device ts) now m first limit early h =
    if_ind (SeenIn first limit) (is_from_primary_phone is_from_me device) (phone_seen true ts now m)
      m (phone_seen-SeenIn ts now m first limit early h) (λ e. h)
handle_event-SeenIn (receipt is_from_me device ts) now m first limit early h =
    if_ind (SeenIn first limit) (is_from_primary_phone is_from_me device) (phone_seen true ts now m)
      m (phone_seen-SeenIn ts now m first limit early h) (λ e. h)
handle_event-SeenIn (media_retry ts) now m first limit early h =
    phone_seen-SeenIn ts now m first limit early h
handle_event-SeenIn pair_success now m first limit early h =
    phone_seen-SeenIn (some now) now m first limit early h
handle_event-SeenIn offline_sync_completed now m first limit early h = h
handle_event-SeenIn other now m first limit early h = h

check-seen :
    (linked : Bool) (now : ℕ) (m : PhoneMonitor)
    → row_seen m.row ≡ time_to_ms m.state.last_seen
    → ((check linked true now m).0.state.last_seen ≡ m.state.last_seen)
      × (row_seen (check linked true now m).0.row ≡ time_to_ms m.state.last_seen)
unfolding check save_locked save_phone_status
check-seen linked now m saved = (ground (arith), ground (arith, saved))

check-SeenIn :
    (linked : Bool) (now : ℕ) (m : PhoneMonitor) (first : Option ℕ) (limit : ℕ)
    → SeenIn first limit m
    → SeenIn first limit (check linked true now m).0
check-SeenIn linked now m first limit h =
    let same = check-seen linked now m h.saved in
    record {
      saved = same.1 ∙ ap time_to_ms (sym same.0);
      forward =
          subst (λ (t : Option ℕ). NotBefore (time_to_ms first) (time_to_ms t)) (sym same.0)
            h.forward;
      past = subst (NotAfter limit) (sym same.0) h.past;
    }

ms_to_time-NotAfter :
    (t : Option ℕ) (limit : ℕ) → NotAfter limit t → NotAfter limit (ms_to_time (time_to_ms t))
ms_to_time-NotAfter none limit h = tt
ms_to_time-NotAfter (some t) limit h = omega (arith, h)

new_phone_monitor-seen :
    (ping_enabled : Bool) (ping_after now : ℕ) (row : Option SavedStatus)
    → ((new_phone_monitor ping_enabled ping_after true now row).state.last_seen
        ≡ ms_to_time (row_seen row))
      × (row_seen (new_phone_monitor ping_enabled ping_after true now row).row ≡ row_seen row)
unfolding new_phone_monitor load_phone_status save_locked save_phone_status
new_phone_monitor-seen ping_enabled ping_after now none = (refl, refl)
new_phone_monitor-seen ping_enabled ping_after now (some row) =
    (ground arith, ground (arith, time_to_ms-ms_to_time row.seen_ms))

restart-SeenIn :
    (ping_enabled : Bool) (ping_after now : ℕ) (m : PhoneMonitor) (first : Option ℕ) (limit : ℕ)
    → SeenIn first limit m
    → SeenIn first limit (new_phone_monitor ping_enabled ping_after true now m.row)
restart-SeenIn ping_enabled ping_after now m first limit h =
    let new = new_phone_monitor-seen ping_enabled ping_after now m.row in
    let seen : (new_phone_monitor ping_enabled ping_after true now m.row).state.last_seen
        ≡ ms_to_time (time_to_ms m.state.last_seen) =
      new.0 ∙ ap ms_to_time h.saved in
    let ms = ap time_to_ms seen ∙ time_to_ms-ms_to_time (time_to_ms m.state.last_seen) in
    record {
      saved = new.1 ∙ h.saved ∙ sym ms;
      forward = subst (NotBefore (time_to_ms first)) (sym ms) h.forward;
      past = subst (NotAfter limit) (sym seen) (ms_to_time-NotAfter m.state.last_seen limit h.past);
    }

-- With a table that takes every save, the last sighting, in milliseconds, is never moved back and
-- is never after the clock, whatever instants the events carry: over any events, checks and
-- restarts.
pub run-SeenIn :
    (ss : List Step) (m : PhoneMonitor) (first : Option ℕ) (limit : ℕ)
    → All (Until limit) ss
    → SeenIn first limit m
    → SeenIn first limit (run ss m).0
unfolding run perform
run-SeenIn [] m first limit early h = h
run-SeenIn (event e now ∷ ss) m first limit early h =
    run-SeenIn ss (handle_event true now e m) first limit early.1
      (handle_event-SeenIn e now m first limit early.0 h)
run-SeenIn (checks linked now ∷ ss) m first limit early h =
    run-SeenIn ss (check linked true now m).0 first limit early.1
      (check-SeenIn linked now m first limit h)
run-SeenIn (restart ping_enabled ping_after now ∷ ss) m first limit early h =
    run-SeenIn ss (new_phone_monitor ping_enabled ping_after true now m.row) first limit early.1
      (restart-SeenIn ping_enabled ping_after now m first limit h)
