-- ===== src/MediaRetry/Queue/Pace.antt =====
-- The quiet hours, and what a tick of whatsapp-bridge/internal/whatsapp/mediaretry_queue.go reports.
use whatsapp_mcp_pro.Base.{
  ℕ, ◌+◌, ◌-◌, ◌%◌, ◌≤◌, ◌<◌, ◌≡◌, refl, List, [], ◌∷◌, true, false, ltb, ◌==◌, not, if◌then◌else◌,
  arith, length, Bool-cases, Option-cases, if_ind, inl, inr,
}
use whatsapp_mcp_pro.MediaRetry.Requests.{Store, MediaRequest, due}
use whatsapp_mcp_pro.MediaRetry.Queue.{
  MediaRetryConfig, in_quiet_hours, Sending, Pass, send_one, send_due, TickEnv, idle, failing,
  send_budget, tick_budget, send_outside_quiet_hours, expired, tick,
}

-- The quiet hours are an arc of the clock: for hours of the day, an hour is quiet exactly when
-- going forward from the start of the arc it comes before the end; equal hours make an empty arc.
pub in_quiet_hours_lem :
    (cfg : MediaRetryConfig) (h : ℕ)
    → cfg.quiet_start_hour < 24
    → cfg.quiet_end_hour < 24
    → h < 24
    → in_quiet_hours cfg h
      ≡ ltb
          ((h + 24 - cfg.quiet_start_hour) % 24)
          ((cfg.quiet_end_hour + 24 - cfg.quiet_start_hour) % 24)
unfolding in_quiet_hours
in_quiet_hours_lem cfg h s e d = ground arith

-- What a pass reports, when it started with the given receipts.
abbrev pub Reports : List ℕ → Pass → Type 0
Reports h p =
    (p.sent + length h ≤ length p.asked)
    × (length p.asked ≤ p.sent + length h + (if p.fails then 1 else 0))

record Reported (h : List ℕ) (p : Pass) : Type 0 where
  reports : Reports h p

idle-Reported : (s : Store) (h : List ℕ) → Reported h (idle s h)
idle-Reported s h = record { reports = (omega arith, omega arith) }

failing-Reported : (s : Store) (h : List ℕ) → Reported h (failing s h)
failing-Reported s h = record { reports = (omega arith, omega arith) }

-- The loop goes on only from a pass that has not failed.
send_one-Reported :
    (cfg : MediaRetryConfig) (r : MediaRequest) (e : Sending) (h : List ℕ) (p : Pass)
    → p.fails ≡ false
    → Reported h p
    → Reported h (send_one cfg r e p).0
      × ((send_one cfg r e p).1 ≡ true → (send_one cfg r e p).0.fails ≡ false)
unfolding send_one
send_one-Reported cfg r e h p ok k = elim (Bool-cases e.alive) [
  | inr dead ↦ rw (dead, send_one) (k, λ _. ok)
  | inl alive ↦ elim (Option-cases e.error) [
    | inl sent ↦ elim (Bool-cases e.mark_fails) [
      | inl lost ↦
          rw (alive, sent, lost, send_one)
            (record { reports = ground (arith, ok, k.reports) }, λ on. absurd (ground (arith, on)))
      | inr kept ↦
          rw (alive, sent, kept, send_one)
            (record { reports = ground (arith, ok, k.reports) }, λ _. ok)
    ]
    | inr (text, refused_) ↦ elim (Bool-cases e.mark_fails) [
      | inl lost ↦
          rw (alive, refused_, lost, send_one)
            (record { reports = ground (arith, ok, k.reports) }, λ on. absurd (ground (arith, on)))
      | inr kept ↦
          rw (alive, refused_, kept, send_one)
            (record { reports = ground (arith, ok, k.reports) }, λ _. ok)
    ]
  ]
]

send_due-Reported :
    (cfg : MediaRetryConfig) (env : MediaRequest → Sending) (h : List ℕ) (rs : List MediaRequest)
    (p : Pass)
    → p.fails ≡ false
    → Reported h p
    → Reported h (send_due cfg env rs p)
unfolding send_due
send_due-Reported cfg env h [] p ok k = k
send_due-Reported cfg env h (r ∷ rs) p ok k =
    let (k', go) = send_one-Reported cfg r (env r) h p ok k in
    elim (Bool-cases (send_one cfg r (env r) p).1) [
      | inl on ↦ rw (on, send_due) (send_due-Reported cfg env h rs _ (go on) k')
      | inr off ↦ rw (off, send_due) k'
    ]

send_budget-Reported :
    (cfg : MediaRetryConfig) (e : TickEnv) (budget : ℕ) (s : Store) (h : List ℕ)
    → Reported h (send_budget cfg e budget s h)
unfolding send_budget
send_budget-Reported cfg e budget s h =
    let sends =
      send_due cfg e.sending (due budget (e.now - cfg.retry_delay) s.requests) (idle s h) in
    let rest = if e.due_fails then failing s h else sends in
    if_ind (Reported h) (budget == 0) (idle s h) rest (idle-Reported s h) λ _.
      if_ind (Reported h) (e.due_fails) (failing s h) sends (failing-Reported s h)
        λ _. send_due-Reported cfg e.sending h _ (idle s h) refl (idle-Reported s h)

-- The number that a tick returns is the number of receipts that reached the phone in it, but that
-- a tick which returns an error may have sent one more.
pub tick-Reports :
    (cfg : MediaRetryConfig) (e : TickEnv) (s : Store) (h : List ℕ) → Reports h (tick cfg e s h)
unfolding tick send_outside_quiet_hours
tick-Reports cfg e s h =
    let s' = expired cfg e s in
    let sends = send_budget cfg e (tick_budget cfg e s') s' h in
    let counts = if e.count_fails then failing s' h else sends in
    let outside = send_outside_quiet_hours cfg e s' h in
    let late = if e.expire_fails then failing s h else outside in
    (if_ind (Reported h) (not e.connected) (idle s h) late (idle-Reported s h) λ _.
      if_ind (Reported h) (e.expire_fails) (failing s h) outside (failing-Reported s h) λ _.
        if_ind (Reported h) (in_quiet_hours cfg e.local_hour) (idle s' h) counts
          (idle-Reported s' h)
          λ _.
            if_ind (Reported h) (e.count_fails) (failing s' h) sends (failing-Reported s' h)
              λ _. send_budget-Reported cfg e (tick_budget cfg e s') s' h).reports
