-- ===== src/Phone/Pings.antt =====
-- How often the phone is pinged: `check` of whatsapp-bridge/internal/whatsapp/phoneping.go, over any
-- events, checks and restarts. The table keeps milliseconds, so a restart forgets less than one.
use whatsapp_mcp_pro.Base.{
  ℕ, ◌+◌, ◌/◌, ◌<◌, ◌≤◌, ◌≡◌, refl, ap, sym, subst, List, [], ◌∷◌, ◌++◌, Option, none, some, Bool,
  true, false, if◌then◌else◌, arith, Bool-cases, inl, inr, if_ind,
}
use whatsapp_mcp_pro.Phone.Monitor.{
  millisecond, day, SavedStatus, time_to_ms, ms_to_time, load_phone_status, save_phone_status,
  PhoneMonitor, save_locked, new_phone_monitor, phone_seen, a_day_ago, should_ping_phone, check,
}
use whatsapp_mcp_pro.Phone.Runs.{
  is_from_primary_phone, PhoneEvent, message, receipt, media_retry, pair_success,
  offline_sync_completed, other, handle_event, Step, event, checks, restart, perform, run,
}

-- The first instant after another one, if there is any, by a day, or less than a millisecond before.
abbrev pub DayAfter : Option ℕ → ℕ → Type 0
DayAfter none p = Unit
DayAfter (some q) p = q + day < p + millisecond

abbrev pub Spaced : Option ℕ → List ℕ → Type 0
Spaced q [] = Unit
Spaced q (p ∷ ps) = DayAfter q p × Spaced (some p) ps

abbrev row_pinged : Option SavedStatus → Option ℕ
row_pinged none = none
row_pinged (some row) = row.pinged_ms

-- The last ping, as the monitor and the table know it.
abbrev Tracks : Option ℕ → PhoneMonitor → Type 0
Tracks q m = (time_to_ms m.state.last_pinged ≡ time_to_ms q) × (row_pinged m.row ≡ time_to_ms q)

-- What is loaded is what is saved.
pub time_to_ms-ms_to_time : (t : Option ℕ) → time_to_ms (ms_to_time t) ≡ t
time_to_ms-ms_to_time none = refl
time_to_ms-ms_to_time (some ms) = ap some (omega arith)

new_phone_monitor-Tracks :
    (ping_enabled : Bool) (ping_after now : ℕ) (row : Option SavedStatus) (q : Option ℕ)
    → row_pinged row ≡ time_to_ms q
    → Tracks q (new_phone_monitor ping_enabled ping_after true now row)
unfolding new_phone_monitor load_phone_status save_locked save_phone_status
new_phone_monitor-Tracks ping_enabled ping_after now none q h = (h, h)
new_phone_monitor-Tracks ping_enabled ping_after now (some row) q h =
    let back = time_to_ms-ms_to_time row.pinged_ms in
    (ground (arith, back, h), ground (arith, back, h))

phone_seen-Tracks :
    (ts : Option ℕ) (now : ℕ) (m : PhoneMonitor) (q : Option ℕ)
    → Tracks q m
    → Tracks q (phone_seen true ts now m)
unfolding phone_seen save_locked save_phone_status
phone_seen-Tracks ts now m q h = (ground (arith, h.0), ground (arith, h.0, h.1))

handle_event-Tracks :
    (e : PhoneEvent) (now : ℕ) (m : PhoneMonitor) (q : Option ℕ)
    → Tracks q m
    → Tracks q (handle_event true now e m)
unfolding handle_event
handle_event-Tracks (message is_from_me device ts) now m q h =
    if_ind (Tracks q) (is_from_primary_phone is_from_me device) (phone_seen true ts now m) m
      (phone_seen-Tracks ts now m q h) (λ e. h)
handle_event-Tracks (receipt is_from_me device ts) now m q h =
    if_ind (Tracks q) (is_from_primary_phone is_from_me device) (phone_seen true ts now m) m
      (phone_seen-Tracks ts now m q h) (λ e. h)
handle_event-Tracks (media_retry ts) now m q h = phone_seen-Tracks ts now m q h
handle_event-Tracks pair_success now m q h = phone_seen-Tracks (some now) now m q h
handle_event-Tracks offline_sync_completed now m q h = h
handle_event-Tracks other now m q h = h

some_ℕ : (a b : ℕ) → some a ≡ some b → a ≡ b
some_ℕ a b e = cc

a_day_ago-DayAfter :
    (p q : Option ℕ) (now : ℕ)
    → a_day_ago p now ≡ true
    → time_to_ms p ≡ time_to_ms q
    → DayAfter q now
a_day_ago-DayAfter p none now old same = tt
a_day_ago-DayAfter none (some q) now old same = cc
a_day_ago-DayAfter (some p) (some q) now old same =
    let ms : p / millisecond ≡ q / millisecond = some_ℕ (p / millisecond) (q / millisecond) same in
    let long : p + day ≤ now = ground (arith, old) in omega (arith, ms, long)

check-pings :
    (linked : Bool) (now : ℕ) (m : PhoneMonitor)
    → (check linked true now m).1.pings ≡ true
    → (a_day_ago m.state.last_pinged now ≡ true) × Tracks (some now) (check linked true now m).0
unfolding check should_ping_phone save_locked save_phone_status
check-pings linked now m pings =
    (ground (arith, pings), (ground (arith, pings), ground (arith, pings)))

check-silent :
    (linked : Bool) (now : ℕ) (m : PhoneMonitor) (q : Option ℕ)
    → (check linked true now m).1.pings ≡ false
    → Tracks q m
    → Tracks q (check linked true now m).0
unfolding check save_locked save_phone_status
check-silent linked now m q silent h = (ground (arith, silent, h.0), ground (arith, silent, h.1))

run-Tracks : (ss : List Step) (m : PhoneMonitor) (q : Option ℕ) → Tracks q m → Spaced q (run ss m).1
unfolding run perform
run-Tracks [] m q h = tt
run-Tracks (event e now ∷ ss) m q h =
    run-Tracks ss (handle_event true now e m) q (handle_event-Tracks e now m q h)
run-Tracks (restart ping_enabled ping_after now ∷ ss) m q h =
    run-Tracks ss (new_phone_monitor ping_enabled ping_after true now m.row) q
      (new_phone_monitor-Tracks ping_enabled ping_after now m.row q h.1)
run-Tracks (checks linked now ∷ ss) m q h =
    let done = (check linked true now m).0 in
    elim (Bool-cases (check linked true now m).1.pings) [
      | inl pings ↦
          let due = check-pings linked now m pings in
          subst (λ (b : Bool). Spaced q ((if b then now ∷ [] else []) ++ (run ss done).1))
            (sym pings)
            (
              a_day_ago-DayAfter m.state.last_pinged q now due.0 h.0,
              run-Tracks ss done (some now) due.1,
            )
      | inr silent ↦
          subst (λ (b : Bool). Spaced q ((if b then now ∷ [] else []) ++ (run ss done).1))
            (sym silent) (run-Tracks ss done q (check-silent linked now m q silent h))
    ]

-- With a table that takes every save, two pings that follow one another are a day apart, or less
-- than a millisecond under it, and so is the first from the one that the table knows: over any
-- events, checks and restarts, whatever the clock does.
pub run-Spaced :
    (ping_enabled : Bool) (ping_after now : ℕ) (row : Option SavedStatus) (ss : List Step)
    → Spaced
        (load_phone_status row).last_pinged
        (run ss (new_phone_monitor ping_enabled ping_after true now row)).1
unfolding load_phone_status
run-Spaced ping_enabled ping_after now none ss =
    run-Tracks ss (new_phone_monitor ping_enabled ping_after true now none) none
      (new_phone_monitor-Tracks ping_enabled ping_after now none none refl)
run-Spaced ping_enabled ping_after now (some row) ss =
    let q = ms_to_time row.pinged_ms in
    run-Tracks ss (new_phone_monitor ping_enabled ping_after true now (some row)) q (
      new_phone_monitor-Tracks ping_enabled ping_after now (some row) q
        (sym (time_to_ms-ms_to_time row.pinged_ms)))
