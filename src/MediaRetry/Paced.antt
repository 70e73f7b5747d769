-- ===== src/MediaRetry/Paced.antt =====
-- What one pass of the queue keeps of the hourly limit (whatsapp-bridge/internal/whatsapp/
-- mediaretry_queue.go), while it records receipts in the table and in the full history.
use whatsapp_mcp_pro.Base.{
  ℕ, zero, suc, ◌+◌, ◌-◌, ◌≤◌, ◌≡◌, ◌∙◌, refl, ◌⊎◌, inl, inr, List, [], ◌∷◌, ◌++◌, false, String,
  ltb, leb, arith, filter, length, count-append, Option-cases, Bool-cases,
}
use whatsapp_mcp_pro.Antiban.Window.Track.{recent, Ceiling, Ceiling-cons}
use whatsapp_mcp_pro.MediaRetry.Requests.{
  db_time, MediaRequest, Store, count_receipts_since, mark_sent, mark_send_error, receipt_retention,
}
use whatsapp_mcp_pro.MediaRetry.Queue.{
  hour, MediaRetryConfig, media_retry_budget, Sending, Pass, send_one, send_due,
}

-- A receipt counts for an hour, and for the second in which it is an hour old.
abbrev pub span : ℕ
span = 3601

-- The code's count is the count of the receipts that are recent.
pub count-recent :
    (now : ℕ) (ts : List ℕ) → count_receipts_since (now - hour) ts ≡ recent span (db_time now) ts
unfolding count_receipts_since
count-recent now [] = refl
count-recent now (t ∷ ts) = ground (arith, count-recent now ts)

-- The table of receipts counts like the full history, from `last` on.
abbrev pub Logged : ℕ → List ℕ → List ℕ → Type 0
Logged last ts h = (m : ℕ) → last ≤ m → recent span m ts ≡ recent span m h

recent-filter :
    (a m : ℕ) (ts : List ℕ)
    → a ≤ m
    → recent span m (filter (λ t. leb a (t + receipt_retention)) ts) ≡ recent span m ts
recent-filter a m [] h = refl
recent-filter a m (t ∷ ts) h = ground (arith, recent-filter a m ts h)

Logged-mark_sent :
    (last at : ℕ) (message chat : String) (s : Store) (h : List ℕ)
    → db_time at ≤ last
    → Logged last s.receipts h
    → Logged last (mark_sent message chat at s).receipts (db_time at ∷ h)
unfolding mark_sent
Logged-mark_sent last at message chat s h le k m hm =
    recent-filter (db_time at) m (s.receipts ++ db_time at ∷ []) (omega arith)
    ∙ omega (arith, k m hm, count-append (λ t. ltb m (t + span)) s.receipts (db_time at ∷ []))

recent_later : (n a : ℕ) (h : List ℕ) → n ≤ a → recent span a h ≤ recent span n h
recent_later n a [] le = omega arith
recent_later n a (t ∷ h) le = ground (arith, recent_later n a h le)

-- What holds of a pass that began at the second `n` and may send `left` more receipts.
pub record Paced (cfg : MediaRetryConfig) (n last left : ℕ) (s : Store) (h : List ℕ) : Type 0 where
  pub logged : Logged last s.receipts h
  pub ceiling : Ceiling span cfg.max_per_hour h
  pub room : recent span n h + left ≤ cfg.max_per_hour

pub Paced-mark_sent :
    (cfg : MediaRetryConfig) (n last left at : ℕ) (message chat : String) (s : Store) (h : List ℕ)
    → n ≤ db_time at
    → db_time at ≤ last
    → Paced cfg n last (suc left) s h
    → Paced cfg n last left (mark_sent message chat at s) (db_time at ∷ h)
Paced-mark_sent cfg n last left at message chat s h ge le k = record {
  logged = Logged-mark_sent last at message chat s h le k.logged;
  ceiling =
      Ceiling-cons span cfg.max_per_hour (db_time at) h k.ceiling
        (omega (arith, recent_later n (db_time at) h ge, k.room));
  room = ground (arith, k.room);
}

-- The environment of one pass: each outcome is recorded, at an instant between the start of the
-- pass and the last instant of it.
abbrev pub Timely : ℕ → ℕ → (MediaRequest → Sending) → Type 0
Timely now last env =
    (r : MediaRequest)
    → ((env r).mark_fails ≡ false)
      × (db_time now ≤ db_time (env r).at)
      × (db_time (env r).at ≤ last)

module _ (cfg : MediaRetryConfig) (now last : ℕ) (env : MediaRequest → Sending)
    (timely : Timely now last env) where
  send_one-Paced :
      (left : ℕ) (r : MediaRequest) (p : Pass)
      → Paced cfg (db_time now) last (suc left) p.store p.asked
      → Paced cfg
          (db_time now)
          last
          left
          (send_one cfg r (env r) p).0.store
          (send_one cfg r (env r) p).0.asked
  unfolding send_one mark_send_error
  send_one-Paced left r p k =
      let (recorded, ge, le) = timely r in
      let skip : Paced cfg (db_time now) last left p.store p.asked = record {
        logged = k.logged;
        ceiling = k.ceiling;
        room = omega (arith, k.room);
      } in
      elim (Bool-cases (env r).alive) [
        | inr dead ↦ rw (dead, send_one) skip
        | inl alive ↦ elim (Option-cases (env r).error) [
          | inl ok ↦
              rw (alive, ok, recorded, send_one)
                (Paced-mark_sent cfg (db_time now) last left (env r).at r.message_id r.chat_jid
                  p.store p.asked ge le k)
          | inr (text, failed_) ↦
              rw (alive, failed_, recorded, send_one)
                (record { logged = k.logged; ceiling = k.ceiling; room = omega (arith, k.room) })
        ]
      ]

  pub send_due-Paced :
      (rs : List MediaRequest) (left : ℕ) (p : Pass)
      → length rs ≤ left
      → Paced cfg (db_time now) last left p.store p.asked
      → Ceiling span cfg.max_per_hour (send_due cfg env rs p).asked
        × Logged last (send_due cfg env rs p).store.receipts (send_due cfg env rs p).asked
  unfolding send_due
  send_due-Paced [] left p le k = (k.ceiling, k.logged)
  send_due-Paced (r ∷ rs) zero p le k = absurd (omega arith)
  send_due-Paced (r ∷ rs) (suc left) p le k =
      let k' = send_one-Paced left r p k in
      elim (Bool-cases (send_one cfg r (env r) p).1) [
        | inl on ↦ rw (on, send_due) (send_due-Paced rs left _ (omega arith) k')
        | inr off ↦ rw (off, send_due) (k'.ceiling, k'.logged)
      ]

pub budget-room :
    (spent max_per_hour batch : ℕ)
    → (media_retry_budget spent max_per_hour batch ≡ 0)
      ⊎ (spent + media_retry_budget spent max_per_hour batch ≤ max_per_hour)
unfolding media_retry_budget
budget-room spent max_per_hour batch = ground arith
