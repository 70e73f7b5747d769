-- ===== src/MediaRetry/Hourly.antt =====
-- The hourly limit on the receipts that reach the phone, of the loop and the download path together
-- (whatsapp-bridge/internal/whatsapp/mediaretry_queue.go).
use whatsapp_mcp_pro.Base.{
  ℕ, ◌+◌, ◌-◌, ◌≤◌, ◌≡◌, ◌∙◌, refl, inl, inr, List, [], ◌∷◌, Option, none, some, false, not, String,
  ◌==◌, arith, if◌then◌else◌, Option-cases, if_ind, ap,
}
use whatsapp_mcp_pro.Antiban.Window.Track.{recent, within, Ceiling}
use whatsapp_mcp_pro.MediaRetry.Requests.{
  db_time, Store, get, due, count_receipts_since, mark_send_error, expire_sent,
}
use whatsapp_mcp_pro.MediaRetry.Requests.Moves.{due_lem}
use whatsapp_mcp_pro.MediaRetry.Queue.{
  hour, MediaRetryConfig, in_quiet_hours, media_retry_budget, Pass, send_due, TickEnv, tick, idle,
  failing, send_budget, tick_budget, expired, send_outside_quiet_hours,
}
use whatsapp_mcp_pro.MediaRetry.Ask.{
  AskEnv, AskAnswer, Asked, unless_refused, refusal, refused, send_if_budget, store_error,
  over_budget, send_receipt, ask_phone_for_media,
}
use whatsapp_mcp_pro.MediaRetry.Paced.{
  span, count-recent, Paced, Paced-mark_sent, Timely, send_due-Paced, budget-room,
}

-- What a state of the tables and of the full history keeps between two passes.
pub record Hourly (cfg : MediaRetryConfig) (last : ℕ) (s : Store) (h : List ℕ) : Type 0 where
  pub logged : (m : ℕ) → last ≤ m → recent span m s.receipts ≡ recent span m h
  pub ceiling : Ceiling span cfg.max_per_hour h

record HourlyPass (cfg : MediaRetryConfig) (last : ℕ) (p : Pass) : Type 0 where
  holds : Hourly cfg last p.store p.asked

record HourlyAsk (cfg : MediaRetryConfig) (last : ℕ) (a : Asked) : Type 0 where
  holds : Hourly cfg last a.store a.asked

module _ (cfg : MediaRetryConfig) where
  Hourly-later :
      (last last' : ℕ) (s s' : Store) (h : List ℕ)
      → last ≤ last'
      → s'.receipts ≡ s.receipts
      → Hourly cfg last s h
      → Hourly cfg last' s' h
  Hourly-later last last' s s' h le e k = record {
    logged = λ m hm. ap (recent span m) e ∙ k.logged m (omega arith);
    ceiling = k.ceiling;
  }

  send_budget-Hourly :
      (e : TickEnv) (last' : ℕ) (s : Store) (h : List ℕ)
      → db_time e.now ≤ last'
      → Timely e.now last' e.sending
      → Hourly cfg last' s h
      → recent span (db_time e.now) s.receipts ≡ recent span (db_time e.now) h
      → HourlyPass cfg last' (send_budget cfg e (tick_budget cfg e s) s h)
  unfolding send_budget
  send_budget-Hourly e last' s h le' timely k now_logged =
      let budget = tick_budget cfg e s in
      let due_ = due budget (e.now - cfg.retry_delay) s.requests in
      let sent = send_due cfg e.sending due_ (idle s h) in
      let same : Hourly cfg last' s h = k in
      if_ind (HourlyPass cfg last') (budget == 0) (idle s h)
        (if e.due_fails then failing s h else sent) (record { holds = same })
        λ some_left.
          if_ind (HourlyPass cfg last') (e.due_fails) (failing s h) sent (record { holds = same })
            λ _.
              let room : recent span (db_time e.now) h + budget ≤ cfg.max_per_hour = ground (
                arith,
                budget-room (count_receipts_since (e.now - hour) s.receipts) cfg.max_per_hour
                    cfg.batch_size,
                count-recent e.now s.receipts,
                now_logged,
                some_left,
              ) in
              let (ceiling, logged) =
                send_due-Paced cfg e.now last' e.sending timely due_ budget (idle s h)
                  (due_lem budget (e.now - cfg.retry_delay) s.requests).0
                  (record { logged = k.logged; ceiling = k.ceiling; room = room }) in
              record { holds = record { logged = logged; ceiling = ceiling } }

  -- One tick.
  tick-Hourly :
      (e : TickEnv) (last last' : ℕ) (s : Store) (h : List ℕ)
      → last ≤ db_time e.now
      → db_time e.now ≤ last'
      → Timely e.now last' e.sending
      → Hourly cfg last s h
      → HourlyPass cfg last' (tick cfg e s h)
  unfolding tick send_outside_quiet_hours expire_sent
  tick-Hourly e last last' s h le le' timely k =
      let s' = expired cfg e s in
      let same : Hourly cfg last' s h = Hourly-later last last' s s h (omega arith) refl k in
      let kept : Hourly cfg last' s' h = Hourly-later last last' s s' h (omega arith) refl k in
      let sends = send_budget cfg e (tick_budget cfg e s') s' h in
      let counts = if e.count_fails then failing s' h else sends in
      let outside = send_outside_quiet_hours cfg e s' h in
      if_ind (HourlyPass cfg last') (not e.connected) (idle s h)
        (if e.expire_fails then failing s h else outside) (record { holds = same })
        λ _.
          if_ind (HourlyPass cfg last') (e.expire_fails) (failing s h) outside
            (record { holds = same })
            λ _.
              if_ind (HourlyPass cfg last') (in_quiet_hours cfg e.local_hour) (idle s' h) counts
                (record { holds = kept })
                λ _.
                  if_ind (HourlyPass cfg last') (e.count_fails) (failing s' h) sends
                    (record { holds = kept })
                    λ _.
                      send_budget-Hourly e last' s' h le' timely kept (k.logged (db_time e.now) le)

  unless_refused-Hourly :
      (last : ℕ) (o : Option AskAnswer) (s : Store) (h : List ℕ) (next : Asked)
      → Hourly cfg last s h
      → HourlyAsk cfg last next
      → HourlyAsk cfg last (unless_refused o s h next)
  unfolding unless_refused
  unless_refused-Hourly last none s h next k k' = k'
  unless_refused-Hourly last (some a) s h next k k' = record { holds = k }

  send_receipt-Hourly :
      (message chat : String) (e : AskEnv) (last : ℕ) (s : Store) (h : List ℕ)
      → db_time e.now ≤ db_time e.at
      → db_time e.at ≤ last
      → e.mark_fails ≡ false
      → Paced cfg (db_time e.now) last 1 s h
      → HourlyAsk cfg last (send_receipt cfg message chat e s h)
  unfolding send_receipt mark_send_error
  send_receipt-Hourly message chat e last s h ge le recorded k = elim (Option-cases e.error) [
    | inl ok ↦
        let k' = Paced-mark_sent cfg (db_time e.now) last 0 e.at message chat s h ge le k in
        rw (ok, recorded, send_receipt)
          (record { holds = record { logged = k'.logged; ceiling = k'.ceiling } })
    | inr (text, failed_) ↦
        rw (failed_, recorded, send_receipt)
          (record { holds = record { logged = k.logged; ceiling = k.ceiling } })
  ]

  -- One ask of the download path.
  ask-Hourly :
      (not_available message chat : String) (e : AskEnv) (last last' : ℕ) (s : Store) (h : List ℕ)
      → last ≤ db_time e.now
      → db_time e.now ≤ db_time e.at
      → db_time e.at ≤ last'
      → e.mark_fails ≡ false
      → Hourly cfg last s h
      → HourlyAsk cfg last' (ask_phone_for_media not_available cfg message chat e s h)
  unfolding ask_phone_for_media send_if_budget
  ask-Hourly not_available message chat e last last' s h le ge le' recorded k =
      let budget =
        media_retry_budget (count_receipts_since (e.now - hour) s.receipts) cfg.max_per_hour 1 in
      let same : Hourly cfg last' s h = Hourly-later last last' s s h (omega arith) refl k in
      let sends = send_receipt cfg message chat e s h in
      let over = refused s h over_budget in
      let errs = refused s h store_error in
      let no = refusal not_available (get message chat s.requests) in
      let counts = send_if_budget cfg message chat e s h in
      if_ind (HourlyAsk cfg last') (e.get_fails) errs (unless_refused no s h counts)
        (record { holds = same })
        λ _. unless_refused-Hourly last' no s h counts same (
          if_ind (HourlyAsk cfg last') (e.count_fails) errs (if budget == 0 then over else sends)
            (record { holds = same })
            λ _.
              if_ind (HourlyAsk cfg last') (budget == 0) over sends (record { holds = same })
                λ some_left.
                  let room : recent span (db_time e.now) h + 1 ≤ cfg.max_per_hour = ground (
                    arith,
                    budget-room (count_receipts_since (e.now - hour) s.receipts) cfg.max_per_hour 1,
                    count-recent e.now s.receipts,
                    k.logged (db_time e.now) le,
                    some_left,
                  ) in
                  send_receipt-Hourly message chat e last' s h ge le' recorded
                    (record { logged = same.logged; ceiling = k.ceiling; room = room }))

-- A pass of the loop or an ask of the download path, with the last second of it.
pub data Event : Type 0 where
  ticks : TickEnv → ℕ → Event
  asks : String → String → AskEnv → ℕ → Event

-- The instants are in order, and what is sent is recorded.
abbrev pub Orderly : ℕ → List Event → Type 0
Orderly last [] = Unit
Orderly last (ticks e last' ∷ es) =
    (last ≤ db_time e.now)
    × (db_time e.now ≤ last')
    × Timely e.now last' e.sending
    × Orderly last' es
Orderly last (asks message chat e last' ∷ es) =
    (last ≤ db_time e.now)
    × (db_time e.now ≤ db_time e.at)
    × (db_time e.at ≤ last')
    × (e.mark_fails ≡ false)
    × Orderly last' es

-- The events one after the other: the tables, and the receipts that reached the phone.
unfoldable pub run : String → MediaRetryConfig → List Event → Store → List ℕ → Store × List ℕ
run not_available cfg [] s h = (s, h)
run not_available cfg (ticks e last ∷ es) s h =
    let p = tick cfg e s h in run not_available cfg es p.store p.asked
run not_available cfg (asks message chat e last ∷ es) s h =
    let a = ask_phone_for_media not_available cfg message chat e s h in
    run not_available cfg es a.store a.asked

-- Whatever passes of the loop and asks of the download path follow one another, in the order of
-- their instants and with every outcome recorded: if the receipts in the table are those that
-- reached the phone, and no hour held more of them than the limit, then no hour ever holds more
-- receipts than the limit, of whatever requests.
pub run-Hourly :
    (not_available : String) (cfg : MediaRetryConfig) (es : List Event) (last : ℕ) (s : Store)
    (h : List ℕ)
    → Orderly last es
    → Hourly cfg last s h
    → (from : ℕ) → within span from (run not_available cfg es s h).1 ≤ cfg.max_per_hour
unfolding run
run-Hourly not_available cfg [] last s h o k = k.ceiling
run-Hourly not_available cfg (ticks e last' ∷ es) last s h o k =
    run-Hourly not_available cfg es last' _ _ o.3
      (tick-Hourly cfg e last last' s h o.0 o.1 o.2 k).holds
run-Hourly not_available cfg (asks message chat e last' ∷ es) last s h o k =
    run-Hourly not_available cfg es last' _ _ o.4
      (ask-Hourly cfg not_available message chat e last last' s h o.0 o.1 o.2 o.3 k).holds
