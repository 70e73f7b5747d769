-- ===== src/Antiban/Caps/Restart.antt =====
-- Starting the send caps from a state file.
use whatsapp_mcp_pro.Base.{
  ℕ, zero, suc, ◌+◌, ◌≤◌, ◌<◌, ◌≡◌, refl, List, [], ◌∷◌, Option, none, some, Bool, true, false, not,
  ◌&&◌, ℤ, pos, negsuc, str_eq, arith, is_some, replicate, lookup, All, Option-cases, Bool-cases,
  inl, inr, subst, if◌then◌else◌,
}
use whatsapp_mcp_pro.Antiban.Config.{
  Config, SendClass, class_message, class_feedback, class_exempt, class, hour, minute,
}
use whatsapp_mcp_pro.Antiban.Window.{prune_before, window_full}
use whatsapp_mcp_pro.Antiban.Window.Track.{Ascending, Tracks, Tracks-later, recent}
use whatsapp_mcp_pro.Antiban.Caps.Slots.{
  new_recipients, window_of, counts, check-Tracks, reserve-Tracks,
}
use whatsapp_mcp_pro.Antiban.Caps.Room.{check_class-room}
use whatsapp_mcp_pro.Antiban.Caps.Ceilings.{Call, checks, reserves, instant, Admitted, step, run}
use whatsapp_mcp_pro.Antiban.Caps.{
  Cap, CapError, SendRequest, SendCaps, StateFile, unreadable, new_recipient_window, window_at,
  worse, consider, check_recipient, check_new_recipient, check_feedback_recipient, check_message,
  check_feedback, check_class, check, reserve, load_new_recipients, new_send_caps,
}

abbrev is_class_message : SendClass → Bool
is_class_message class_message = true
is_class_message _ = false

-- The instant of the last call, the first at `last` or later.
abbrev pub last_instant : ℕ → List Call → ℕ
last_instant last [] = last
last_instant last (call ∷ calls) = last_instant (instant call) calls

consider-empty :
    (cap : Cap) (limit : ℤ) (window now : ℕ) → consider cap [] limit window now none ≡ ([], none)
unfolding consider worse prune_before window_full
consider-empty cap (pos zero) window now = refl
consider-empty cap (pos (suc n)) window now = ground arith
consider-empty cap (negsuc n) window now = refl

-- The window that a start from an unreadable file leaves: `limit` entries of the instant `start`.
replicate-Ascending : (n t : ℕ) → Ascending (replicate n t) × All (λ u. t ≤ u) (replicate n t)
replicate-Ascending zero t = (tt, tt)
replicate-Ascending (suc n) t =
    let (rest, all) = replicate-Ascending n t in ((all, rest), (omega arith, all))

replicate-past : (n t : ℕ) → All (λ u. u ≤ t) (replicate n t)
replicate-past zero t = tt
replicate-past (suc n) t = (omega arith, replicate-past n t)

recent-replicate : (n window now t : ℕ) → now < t + window → recent window now (replicate n t) ≡ n
recent-replicate zero window now t h = refl
recent-replicate (suc n) window now t h = ground (arith, recent-replicate n window now t h)

-- A first contact: a message to a recipient that the bridge never wrote to.
abbrev pub is_first_contact : SendRequest → Bool
is_first_contact req = is_class_message (class req.type) && req.new_recipient

module _ (cfg : Config) (limit start : ℕ) (path : str_eq cfg.caps_state_path "" ≡ false)
    (on : cfg.caps_enabled ≡ true) (set : cfg.new_recipients_per_day ≡ pos limit)
    (positive : 0 < limit) where
  -- The window of first contacts is spent as of `last`, and none was let through.
  abbrev Spent : ℕ → SendCaps × List Admitted → Type 0
  Spent last s =
      Tracks new_recipient_window last s.0.new_recipients (replicate limit start)
      × All (λ a. is_first_contact a.request ≡ false) s.1

  spent_window : (new_send_caps cfg unreadable start).new_recipients ≡ replicate limit start
  unfolding new_send_caps load_new_recipients
  spent_window = ground arith

  Spent-start : Spent start (new_send_caps cfg unreadable start, [])
  Spent-start = (
    rw spent_window (record {
      ascending = (replicate-Ascending limit start).0;
      past = replicate-past limit start;
      same = λ w m hw hm. refl;
    }),
    tt,
  )

  first_contact-counts :
      (req : SendRequest)
      → is_first_contact req ≡ true
      → counts cfg (class req.type) req new_recipients ≡ true
  unfolding counts
  first_contact-counts req e =
      elim (class req.type)
          as (λ k.
            (is_class_message k && req.new_recipient) ≡ true
            → counts cfg k req new_recipients ≡ true) [
              | class_message ↦ λ e. ground (arith, e)
              | class_feedback ↦ λ e. absurd (ground (arith, e))
              | class_exempt ↦ λ e. absurd (ground (arith, e))
            ]
        e

  others-counts :
      (req : SendRequest)
      → is_first_contact req ≡ false
      → counts cfg (class req.type) req new_recipients ≡ false
  unfolding counts
  others-counts req e =
      elim (class req.type)
          as (λ k.
            (is_class_message k && req.new_recipient) ≡ false
            → counts cfg k req new_recipients ≡ false) [
              | class_message ↦ λ e. ground (arith, e)
              | class_feedback ↦ λ e. refl
              | class_exempt ↦ λ e. refl
            ]
        e

  check-none :
      (c : SendCaps) (req : SendRequest) (now : ℕ)
      → (check cfg c req now).1 ≡ none
      → (check_class (class req.type) cfg c req now).1 ≡ none
  unfolding check
  check-none c req now e = ground (arith, e)

  reserve-none :
      (c : SendCaps) (req : SendRequest) (now : ℕ)
      → (reserve cfg c req now).refusal ≡ none
      → (check cfg c req now).1 ≡ none
  unfolding reserve
  reserve-none c req now e = ground (arith, e)

  spent_refuses :
      (c : SendCaps) (req : SendRequest) (now : ℕ)
      → Tracks new_recipient_window now c.new_recipients (replicate limit start)
      → now < start + new_recipient_window
      → (check cfg c req now).1 ≡ none
      → is_first_contact req ≡ false
  unfolding window_of
  spent_refuses c req now k early e = elim (Bool-cases (is_first_contact req)) [
    | inr other ↦ other
    | inl fresh ↦ absurd (
        omega (
          arith,
          recent-replicate limit new_recipient_window now start early,
          check_class-room (class req.type) cfg c req now Cap.new_recipients_per_day "" limit
              (replicate limit start) (check-none c req now e) (first_contact-counts req fresh) set
              positive k,
        ))
  ]

  -- The calls are made within 24 hours of the start, by a clock that does not step back.
  abbrev pub Within : ℕ → List Call → Type 0
  Within last [] = Unit
  Within last (call ∷ calls) =
      (last ≤ instant call)
      × (instant call < start + new_recipient_window)
      × Within (instant call) calls

  admit-Spent :
      (refused : Bool) (req : SendRequest) (now : ℕ) (log : List Admitted)
      → (refused ≡ false → is_first_contact req ≡ false)
      → All (λ a. is_first_contact a.request ≡ false) log
      → All
          (λ a. is_first_contact a.request ≡ false)
          (if not refused then record { request = req; at = now } ∷ log else log)
  admit-Spent true req now log f k = k
  admit-Spent false req now log f k = (f refl, k)

  is_some-false : (o : Option CapError) → is_some o ≡ false → o ≡ none
  is_some-false o e = ground arith

  not_counted :
      (o : Option CapError) (req : SendRequest)
      → (o ≡ none → counts cfg (class req.type) req new_recipients ≡ false)
      → (not (is_some o) && counts cfg (class req.type) req new_recipients) ≡ false
  not_counted none req f = f refl
  not_counted (some e) req f = refl

  step-Spent :
      (s : SendCaps × List Admitted) (call : Call) (last : ℕ)
      → last ≤ instant call
      → instant call < start + new_recipient_window
      → Spent last s
      → Spent (instant call) (step cfg s call)
  unfolding step window_of
  step-Spent (c, log) (checks req now) last le early k =
      (check-Tracks cfg req now new_recipients _ c (Tracks-later _ last now _ _ le k.0), k.1)
  step-Spent (c, log) (reserves req now) last le early k =
      let tracks = Tracks-later _ last now _ _ le k.0 in
      let admitted = λ (e : (reserve cfg c req now).refusal ≡ none).
        spent_refuses c req now tracks early (reserve-none c req now e) in
      let uncounted =
        not_counted (reserve cfg c req now).refusal req (λ e. others-counts req (admitted e)) in
      (
        subst
            (λ (b : Bool).
              Tracks new_recipient_window now (reserve cfg c req now).caps.new_recipients
                (if b then now ∷ replicate limit start else replicate limit start))
            uncounted (reserve-Tracks cfg c req now new_recipients _ tracks),
        admit-Spent (is_some (reserve cfg c req now).refusal) req now log
            (λ e. admitted (is_some-false (reserve cfg c req now).refusal e)) k.1,
      )

  run-Spent :
      (calls : List Call) (last : ℕ) (s : SendCaps × List Admitted)
      → Within last calls
      → Spent last s
      → Spent (last_instant last calls) (run cfg s calls)
  unfolding run
  run-Spent [] last s w k = k
  run-Spent (call ∷ calls) last s w k =
      run-Spent calls (instant call) (step cfg s call) w.2 (step-Spent s call last w.0 w.1 k)

  -- After a start from an unreadable state file, with a path set, the caps enabled and a positive
  -- limit of first contacts: whatever calls of Check and Reserve are made within 24 hours of the
  -- start, by a clock that does not step back, Reserve lets no message to a new recipient through,
  -- and a further Check of one within the 24 hours refuses it.
  pub unreadable_blocks :
      (calls : List Call) (req : SendRequest) (now : ℕ)
      → Within start calls
      → last_instant start calls ≤ now
      → now < start + new_recipient_window
      → is_first_contact req ≡ true
      → let s = run cfg (new_send_caps cfg unreadable start, []) calls in
        All (λ a. is_first_contact a.request ≡ false) s.1
        × (is_some (check cfg s.0 req now).1 ≡ true)
  unreadable_blocks calls req now w le early fresh =
      let s = run cfg (new_send_caps cfg unreadable start, []) calls in
      let (tracks, none_through) = run-Spent calls start _ w Spent-start in
      (
        none_through,
        elim (Option-cases (check cfg s.0 req now).1) [
          | inr (e, refused) ↦ ground (arith, refused)
          | inl admitted ↦ absurd (
              ground (
                arith,
                fresh,
                spent_refuses s.0 req now (Tracks-later _ _ now _ _ le tracks) early admitted,
              ))
        ],
      )

-- Whatever the state file holds, right after a start no send to a known recipient is refused, of
-- whatever type.
pub restart_allows_replies :
    (cfg : Config) (file : StateFile) (start now : ℕ) (req : SendRequest)
    → req.new_recipient ≡ false
    → (check cfg (new_send_caps cfg file start) req now).1 ≡ none
unfolding check check_class check_message check_feedback check_recipient check_new_recipient
    check_feedback_recipient new_send_caps window_at lookup
restart_allows_replies cfg file start now req known = ground (
  arith,
  consider-empty Cap.global_per_hour cfg.global_max_per_hour hour now,
  consider-empty Cap.recipient_per_hour cfg.recipient_max_per_hour hour now,
  consider-empty Cap.recipient_per_minute cfg.recipient_max_per_minute minute now,
  consider-empty Cap.feedback_per_hour cfg.feedback_max_per_hour hour now,
  consider-empty Cap.feedback_per_minute cfg.feedback_max_per_minute minute now,
)
