-- ===== src/MediaRetry/Ask/Once.antt =====
-- A second ask for the same media (whatsapp-bridge/internal/whatsapp/mediaretry_queue.go).
use whatsapp_mcp_pro.Base.{
  ℕ, ◌-◌, ◌≤◌, ◌⊎◌, str_eq, ◌≡◌, ◌∙◌, refl, List, [], ◌∷◌, ◌++◌, Option, none, some, false, String,
  eq_iff, if_ind, arith, ap, Option-cases, Bool-cases, inl, inr, if◌then◌else◌, ◌==◌, ◌&&◌,
}
use whatsapp_mcp_pro.MediaRetry.Requests.{
  db_time, sent, is_failed, is_sent, MediaRequest, Store, get, upsert, reopened, enqueue, mark_sent,
  sent_row, mark_send_error, mark_retry, mark_succeeded, mark_failed, expire_sent, is_unanswered,
  count_receipts_since,
}
use whatsapp_mcp_pro.MediaRetry.Requests.Moves.{
  KeepsKey, reopened-KeepsKey, get-update, get-update_fixed, get-update_other, get-map_fixed,
  get-append,
}
use whatsapp_mcp_pro.MediaRetry.Queue.{hour, MediaRetryConfig, media_retry_budget}
use whatsapp_mcp_pro.MediaRetry.Ask.{
  receipt_sent, in_flight, store_error, over_budget, send_failed, gone_from_phone, AskEnv, Asked,
  refused, refusal, unless_refused, send_receipt, send_if_budget, ask_phone_for_media,
  is_final_media_retry_reason,
}

get-append_new :
    (m c : String) (new : MediaRequest) (rs : List MediaRequest)
    → new.message_id ≡ m
    → new.chat_jid ≡ c
    → get m c rs ≡ none
    → get m c (rs ++ new ∷ []) ≡ some new
unfolding get
get-append_new m c new [] a b e =
    ground (arith, a, b, eq_iff new.message_id m, eq_iff new.chat_jid c)
get-append_new m c new (q ∷ rs) a b e = ground (arith, get-append_new m c new rs a b)

-- After a receipt is recorded, the row of its request is sent.
get-mark_sent :
    (m c : String) (now : ℕ) (s : Store)
    → (q : MediaRequest) × (get m c (mark_sent m c now s).requests ≡ some q)
      × (q.state ≡ sent)
      × (q.last_attempt_at ≡ some (db_time now))
unfolding mark_sent upsert sent_row
get-mark_sent m c now s = elim (Option-cases (get m c s.requests)) [
  | inl new ↦ rw (new, upsert) (_, get-append_new m c _ s.requests refl refl new, refl, refl)
  | inr (r, old) ↦
      rw (old, upsert)
        (
          sent_row now r,
          get-update m c (sent_row now) s.requests r (λ q. (refl, refl)) old,
          refl,
          refl,
        )
]

-- What may be done to the tables between two asks for the same media.
pub data Meanwhile : Type 0 where
  enqueues sends succeeds : String → String → ℕ → Meanwhile
  send_errors retries : String → String → String → ℕ → ℕ → Meanwhile
  fails : String → String → String → ℕ → Meanwhile
  expires : ℕ → ℕ → ℕ → Meanwhile

unfoldable pub meanwhile : Meanwhile → Store → Store
meanwhile (enqueues k d now) s = record s { requests = (enqueue k d now s.requests).0 }
meanwhile (sends k d now) s = mark_sent k d now s
meanwhile (succeeds k d now) s = mark_succeeded k d now s
meanwhile (send_errors k d err max_attempts now) s = mark_send_error k d err max_attempts now s
meanwhile (retries k d err max_attempts now) s = mark_retry k d err max_attempts now s
meanwhile (fails k d err now) s = mark_failed k d err now s
meanwhile (expires cutoff max_attempts now) s = expire_sent cutoff max_attempts now s

unfoldable pub meanwhile_all : List Meanwhile → Store → Store
meanwhile_all [] s = s
meanwhile_all (op ∷ ops) s = meanwhile_all ops (meanwhile op s)

-- An ask that answers that the receipt is sent.
record SentBy (m c : String) (at : ℕ) (s : Store) (a : Asked) : Type 0 where
  stored : a.answer ≡ receipt_sent → a.store ≡ mark_sent m c at s

module _ (not_available : String) (cfg : MediaRetryConfig) (m c : String) where
  refusal-kept :
      (e : AskEnv) (s : Store) (h : List ℕ) (o : Option MediaRequest) (next : Asked)
      → SentBy m c e.at s next
      → SentBy m c e.at s (unless_refused (refusal not_available o) s h next)
  unfolding unless_refused refusal
  refusal-kept e s h none next k = k
  refusal-kept e s h (some r) next k =
      let final = is_failed r.state && is_final_media_retry_reason not_available r.last_error in
      elim (Bool-cases final) [
        | inl gone ↦
            rw (gone) (record {
              stored = λ (x : gone_from_phone ≡ receipt_sent). absurd (ground (arith, x));
            })
        | inr open_ ↦ elim (Bool-cases (is_sent r.state)) [
          | inl busy ↦
              rw (open_, busy)
                (record { stored = λ (x : in_flight ≡ receipt_sent). absurd (ground (arith, x)) })
          | inr idle_ ↦ rw (open_, idle_) k
        ]
      ]

  send_receipt-SentBy :
      (e : AskEnv) (s : Store) (h : List ℕ)
      → e.mark_fails ≡ false
      → SentBy m c e.at s (send_receipt cfg m c e s h)
  unfolding send_receipt
  send_receipt-SentBy e s h recorded = elim (Option-cases e.error) [
    | inl ok ↦ rw (ok, recorded, send_receipt) (record { stored = λ _. refl })
    | inr (text, bad) ↦
        rw (bad, recorded, send_receipt)
          (record { stored = λ (x : send_failed ≡ receipt_sent). absurd (ground (arith, x)) })
  ]

  ask-SentBy :
      (e : AskEnv) (s : Store) (h : List ℕ)
      → e.mark_fails ≡ false
      → SentBy m c e.at s (ask_phone_for_media not_available cfg m c e s h)
  unfolding ask_phone_for_media send_if_budget
  ask-SentBy e s h recorded =
      let errs = refused s h store_error in
      let over = refused s h over_budget in
      let sends = send_receipt cfg m c e s h in
      let none_left =
        media_retry_budget (count_receipts_since (e.now - hour) s.receipts) cfg.max_per_hour 1
        == 0 in
      let counts = send_if_budget cfg m c e s h in
      let known = get m c s.requests in
      let failed_ : SentBy m c e.at s errs = record {
        stored = λ (x : store_error ≡ receipt_sent). absurd (ground (arith, x));
      } in
      if_ind (SentBy m c e.at s) (e.get_fails) errs
        (unless_refused (refusal not_available known) s h counts) failed_
        λ _. refusal-kept e s h known counts (
          if_ind (SentBy m c e.at s) (e.count_fails) errs (if none_left then over else sends)
            failed_
            λ _.
              if_ind (SentBy m c e.at s) none_left over sends
                (record { stored = λ (x : over_budget ≡ receipt_sent). absurd (ground (arith, x)) })
                λ _. send_receipt-SentBy e s h recorded)

  ask_sent :
      (e : AskEnv) (s : Store) (h : List ℕ) (q : MediaRequest)
      → e.get_fails ≡ false
      → get m c s.requests ≡ some q
      → q.state ≡ sent
      → ask_phone_for_media not_available cfg m c e s h ≡ refused s h in_flight
  unfolding ask_phone_for_media unless_refused refusal
  ask_sent e s h q ok known st = rw (ok, known, st, refusal, unless_refused) refl

  -- While a receipt waits for its answer: a request of this media may be enqueued and the expiry
  -- may run for receipts that are not younger than this one; other requests may do anything.
  abbrev pub Quiet : ℕ → Meanwhile → Type 0
  Quiet at (enqueues k d now) = Unit
  Quiet at (expires cutoff max_attempts now) = db_time cutoff ≤ db_time at
  Quiet at (sends k d now) = (str_eq k m && str_eq d c) ≡ false
  Quiet at (send_errors k d err max_attempts now) = (str_eq k m && str_eq d c) ≡ false
  Quiet at (retries k d err max_attempts now) = (str_eq k m && str_eq d c) ≡ false
  Quiet at (succeeds k d now) = (str_eq k m && str_eq d c) ≡ false
  Quiet at (fails k d err now) = (str_eq k m && str_eq d c) ≡ false

  abbrev pub AllQuiet : ℕ → List Meanwhile → Type 0
  AllQuiet at [] = Unit
  AllQuiet at (op ∷ ops) = Quiet at op × AllQuiet at ops

  module _ (at : ℕ) (r : MediaRequest) (st : r.state ≡ sent)
      (asked_at : r.last_attempt_at ≡ some (db_time at)) where
    upsert_kept :
        (new : MediaRequest) (f : MediaRequest → MediaRequest) (rs : List MediaRequest)
        → KeepsKey f
        → ((str_eq new.message_id m && str_eq new.chat_jid c) ≡ false) ⊎ (f r ≡ r)
        → get m c rs ≡ some r
        → get m c (upsert new f rs) ≡ some r
    unfolding upsert
    upsert_kept new f rs keep h e = elim (Option-cases (get new.message_id new.chat_jid rs)) [
      | inl fresh ↦ rw (fresh, upsert) (get-append m c r rs (new ∷ []) e)
      | inr (q, old) ↦ elim h [
        | inl other ↦
            rw (old, upsert) (get-update_other m c r new.message_id new.chat_jid f rs keep other e)
        | inr same ↦
            rw (old, upsert) (get-update_fixed m c r new.message_id new.chat_jid f rs keep same e)
      ]
    ]

    Quiet-kept :
        (op : Meanwhile) (s : Store)
        → Quiet at op
        → get m c s.requests ≡ some r
        → get m c (meanwhile op s).requests ≡ some r
    unfolding meanwhile enqueue reopened mark_sent sent_row mark_send_error mark_retry
        mark_succeeded mark_failed expire_sent is_unanswered
    Quiet-kept (enqueues k d now) s q e =
        upsert_kept _ (reopened now) s.requests (reopened-KeepsKey now) (inr (ground arith)) e
    Quiet-kept (expires cutoff n now) s q e =
        get-map_fixed m c r _ s.requests (λ p. ground arith) (ground arith) e
    Quiet-kept (sends k d now) s q e =
        upsert_kept _ (sent_row now) s.requests (λ p. (refl, refl)) (inl q) e
    Quiet-kept (send_errors k d err n now) s q e =
        get-update_other m c r k d _ s.requests (λ p. (refl, refl)) q e
    Quiet-kept (retries k d err n now) s q e =
        get-update_other m c r k d _ s.requests (λ p. ground arith) q e
    Quiet-kept (succeeds k d now) s q e =
        get-update_other m c r k d _ s.requests (λ p. (refl, refl)) q e
    Quiet-kept (fails k d err now) s q e =
        get-update_other m c r k d _ s.requests (λ p. (refl, refl)) q e

    all-kept :
        (ops : List Meanwhile) (s : Store)
        → AllQuiet at ops
        → get m c s.requests ≡ some r
        → get m c (meanwhile_all ops s).requests ≡ some r
    unfolding meanwhile_all
    all-kept [] s q e = e
    all-kept (op ∷ ops) s q e = all-kept ops (meanwhile op s) q.1 (Quiet-kept op s q.0 e)

  -- After an ask that was answered by a sent receipt and recorded, a later ask for the same media
  -- is refused as in flight, if the table can be read, and changes neither the tables nor what
  -- reached the phone. In between, requests may be enqueued, others may be asked for, answered and
  -- settled, and the expiry may run, in any order and number; but the phone has not answered this
  -- one, it has not been settled or asked for again, and the expiry has only run with cutoffs up
  -- to the second of its receipt.
  pub ask_once :
      (e e' : AskEnv) (s : Store) (h h' : List ℕ) (ops : List Meanwhile)
      → e.mark_fails ≡ false
      → e'.get_fails ≡ false
      → (ask_phone_for_media not_available cfg m c e s h).answer ≡ receipt_sent
      → AllQuiet e.at ops
      → let later = meanwhile_all ops (ask_phone_for_media not_available cfg m c e s h).store in
        ask_phone_for_media not_available cfg m c e' later h' ≡ refused later h' in_flight
  ask_once e e' s h h' ops recorded readable answered quiet =
      let stored = (ask-SentBy e s h recorded).stored answered in
      let (q, known, st, asked_at) = get-mark_sent m c e.at s in
      ask_sent e' _ h' q readable
        (all-kept e.at q st asked_at ops _ quiet (ap (λ t. get m c t.requests) stored ∙ known)) st
