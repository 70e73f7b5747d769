-- ===== src/Antiban/Caps/Ceilings.antt =====
-- The promise of the send caps of whatsapp-bridge/internal/antiban/caps.go, over every sequence of
-- calls of `Check` and `Reserve`.
use whatsapp_mcp_pro.Base.{
  ℕ, lookup, ◌≤◌, ◌<◌, ◌≡◌, refl, List, [], ◌∷◌, Option, none, Bool, true, false, not, ◌&&◌, pos,
  String, arith, if◌then◌else◌, is_some,
}
use whatsapp_mcp_pro.Antiban.Config.{Config, class}
use whatsapp_mcp_pro.Antiban.Window.Track.{
  Tracks, Tracks-empty, Tracks-later, Ceiling, Ceiling-cons, recent, within,
}
use whatsapp_mcp_pro.Antiban.Caps.{
  Cap, SendRequest, SendCaps, CapError, check_class, check, missing, load_new_recipients, window_at,
  reserve, new_send_caps,
}
use whatsapp_mcp_pro.Antiban.Caps.Slots.{
  Slot, new_recipients, recipient, feedback_recipient, span, window_of, counts, check-Tracks,
  reserve-Tracks,
}
use whatsapp_mcp_pro.Antiban.Caps.Room.{slot_of, limit_of, window_length, check_class-room}

-- One call of the caps, at an instant of the clock.
pub data Call : Type 0 where
  checks reserves : SendRequest → ℕ → Call

abbrev pub instant : Call → ℕ
instant (checks req now) = now
instant (reserves req now) = now

-- An admitted send.
pub record Admitted : Type 0 where
  pub request : SendRequest
  pub at : ℕ

-- The caps after a call, and the sends admitted so far, the newest first.
unfoldable pub step : Config → SendCaps × List Admitted → Call → SendCaps × List Admitted
step cfg (c, log) (checks req now) = ((check cfg c req now).0, log)
step cfg (c, log) (reserves req now) =
    let r = reserve cfg c req now in
    (r.caps, if not (is_some r.refusal) then record { request = req; at = now } ∷ log else log)

unfoldable pub run : Config → SendCaps × List Admitted → List Call → SendCaps × List Admitted
unfolding step
run cfg s [] = s
run cfg s (call ∷ calls) = run cfg (step cfg s call) calls

-- The clock does not step back from one call to the next, and began at `last` or later.
abbrev pub Monotone : ℕ → List Call → Type 0
Monotone last [] = Unit
Monotone last (call ∷ calls) = (last ≤ instant call) × Monotone (instant call) calls

-- The instants of the admitted sends that a slot counts.
unfoldable pub instants : Config → Slot → List Admitted → List ℕ
instants cfg s [] = []
instants cfg s (a ∷ log) =
    if counts cfg (class a.request.type) a.request s
    then a.at ∷ instants cfg s log
    else instants cfg s log

-- What the log gains by a reservation.
instants-reserve :
    (cfg : Config) (s : Slot) (refused : Bool) (req : SendRequest) (now : ℕ) (log : List Admitted)
    → instants cfg s (if not refused then record { request = req; at = now } ∷ log else log) ≡ (
        if not refused && counts cfg (class req.type) req s
        then now ∷ instants cfg s log
        else instants cfg s log)
unfolding instants
instants-reserve cfg s true req now log = refl
instants-reserve cfg s false req now log = refl

Ceiling-if :
    (window limit now : ℕ) (h : List ℕ) (added : Bool)
    → Ceiling window limit h
    → (added ≡ true → recent window now h < limit)
    → Ceiling window limit (if added then now ∷ h else h)
Ceiling-if window limit now h true c r = Ceiling-cons window limit now h c (r refl)
Ceiling-if window limit now h false c r = c

added_parts :
    (o : Option CapError) (b : Bool) → (not (is_some o) && b) ≡ true → (o ≡ none) × (b ≡ true)
added_parts o b h = ground arith

-- The window of a cap counts the admitted sends, and they keep to its limit.
pub record Kept (cfg : Config) (cap : Cap) (r : String) (limit last : ℕ)
    (s : SendCaps × List Admitted) : Type 0 where
  pub tracks :
      Tracks
        (span (slot_of cap r))
        last
        (window_of s.0 (slot_of cap r))
        (instants cfg (slot_of cap r) s.1)
  pub ceiling : Ceiling (window_length cap) limit (instants cfg (slot_of cap r) s.1)

module _ (cfg : Config) (cap : Cap) (r : String) (limit : ℕ) (on : cfg.caps_enabled ≡ true)
    (set : limit_of cfg cap ≡ pos limit) (positive : 0 < limit) where
  reserve-none :
      (c : SendCaps) (req : SendRequest) (now : ℕ)
      → (reserve cfg c req now).refusal ≡ none
      → (check_class (class req.type) cfg c req now).1 ≡ none
  unfolding reserve check
  reserve-none c req now e = ground arith

  reserve-room :
      (c : SendCaps) (log : List Admitted) (req : SendRequest) (now : ℕ)
      → Kept cfg cap r limit now (c, log)
      → (reserve cfg c req now).refusal ≡ none
      → counts cfg (class req.type) req (slot_of cap r) ≡ true
      → recent (window_length cap) now (instants cfg (slot_of cap r) log) < limit
  reserve-room c log req now k e f =
      check_class-room (class req.type) cfg c req now cap r limit _ (reserve-none c req now e) f set
        positive k.tracks

  pub step-Kept :
      (s : SendCaps × List Admitted) (call : Call) (last : ℕ)
      → last ≤ instant call
      → Kept cfg cap r limit last s
      → Kept cfg cap r limit (instant call) (step cfg s call)
  unfolding step
  step-Kept (c, log) (checks req now) last le k = record {
    tracks = check-Tracks cfg req now (slot_of cap r) _ c (Tracks-later _ last now _ _ le k.tracks);
    ceiling = k.ceiling;
  }
  step-Kept (c, log) (reserves req now) last le k =
      let slot = slot_of cap r in
      let k' = Tracks-later _ last now _ _ le k.tracks in
      let refused = is_some (reserve cfg c req now).refusal in
      let added = not refused && counts cfg (class req.type) req slot in
      record {
        tracks =
            rw (instants-reserve cfg slot refused req now log)
              (reserve-Tracks cfg c req now slot _ k');
        ceiling = rw (instants-reserve cfg slot refused req now log) (
            Ceiling-if _ limit now _ added k.ceiling (λ a.
              let (e, f) = added_parts (reserve cfg c req now).refusal _ a in
              reserve-room c log req now (record { tracks = k'; ceiling = k.ceiling }) e f));
      }

  run-Kept :
      (calls : List Call) (s : SendCaps × List Admitted) (last : ℕ)
      → Monotone last calls
      → Kept cfg cap r limit last s
      → Ceiling (window_length cap) limit (instants cfg (slot_of cap r) (run cfg s calls).1)
  unfolding run
  run-Kept [] s last m k = k.ceiling
  run-Kept (call ∷ calls) s last m k =
      run-Kept calls (step cfg s call) (instant call) m.1 (step-Kept s call last m.0 k)

window_of-missing :
    (cfg : Config) (now : ℕ) (s : Slot) → window_of (new_send_caps cfg missing now) s ≡ []
unfolding window_of new_send_caps load_new_recipients window_at lookup
window_of-missing cfg now (recipient r) = refl
window_of-missing cfg now (feedback_recipient r) = refl
window_of-missing cfg now new_recipients = ground arith
window_of-missing cfg now _ = refl

pub Kept-missing :
    (cfg : Config) (cap : Cap) (r : String) (limit start : ℕ)
    → Kept cfg cap r limit start (new_send_caps cfg missing start, [])
unfolding instants
Kept-missing cfg cap r limit start = record {
  tracks = rw (window_of-missing cfg start (slot_of cap r)) (Tracks-empty _ start);
  ceiling = λ from. omega arith;
}

-- With the caps enabled, a clock that does not step back and no state file at the start: whatever
-- calls of Check and Reserve are made, for each of the six caps whose limit is positive and each
-- chat, no window of the cap's length holds more admitted sends than the limit.
pub run-ceiling :
    (cfg : Config) (cap : Cap) (r : String) (limit : ℕ) (start : ℕ) (calls : List Call)
    → cfg.caps_enabled ≡ true
    → limit_of cfg cap ≡ pos limit
    → 0 < limit
    → Monotone start calls
    → (from : ℕ)
    → within
        (window_length cap)
        from
        (instants cfg (slot_of cap r) (run cfg (new_send_caps cfg missing start, []) calls).1)
      ≤ limit
unfolding instants
run-ceiling cfg cap r limit start calls on set positive m =
    run-Kept cfg cap r limit on set positive calls (new_send_caps cfg missing start, []) start m
      (Kept-missing cfg cap r limit start)
