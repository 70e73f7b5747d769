-- ===== src/Antiban/Interceptor/Sends.antt =====
-- The caps of whatsapp-bridge/internal/antiban/caps.go as the sends see them, through BeforeSend of
-- whatsapp-bridge/internal/antiban/antiban.go.
use whatsapp_mcp_pro.Base.{
  ℕ, ◌≤◌, ◌<◌, ◌≡◌, refl, subst, sym, not, inl, inr, List, [], ◌∷◌, Option, some, true, pos, ℤ,
  String, arith, is_some, if◌then◌else◌, Option-cases,
}
use whatsapp_mcp_pro.Antiban.Config.{Config}
use whatsapp_mcp_pro.Antiban.Window.Track.{Tracks-later, recent, within}
use whatsapp_mcp_pro.Antiban.Caps.{
  Cap, SendCaps, SendRequest, missing, check, reserve, new_send_caps,
}
use whatsapp_mcp_pro.Antiban.Caps.Slots.{span, window_of}
use whatsapp_mcp_pro.Antiban.Caps.Room.{slot_of, limit_of, window_length}
use whatsapp_mcp_pro.Antiban.Caps.Ceilings.{
  Admitted, instants, Kept, Kept-missing, checks, reserves, step, step-Kept,
}
use whatsapp_mcp_pro.Antiban.Pacing.{Bounds}
use whatsapp_mcp_pro.Antiban.Interceptor.{
  PacingState, SendInterceptor, Moment, check_caps, reserve_caps, send_gate, pace, before_send,
}

-- A send that asks the interceptor, with the instants of its steps.
pub record Send : Type 0 where
  pub request : SendRequest
  pub moment : Moment

-- The clock does not step back within a send or from one to the next.
abbrev pub Ordered : ℕ → List Send → Type 0
Ordered last [] = Unit
Ordered last (x ∷ xs) =
    (last ≤ x.moment.check_at)
    × (x.moment.check_at ≤ x.moment.reserve_at)
    × Ordered x.moment.reserve_at xs

-- When the last send ended, the first beginning at `last`.
abbrev pub end_of : ℕ → List Send → ℕ
end_of last [] = last
end_of last (x ∷ xs) = end_of x.moment.reserve_at xs

module _ (today_key : ℕ → String) (sample : Bounds → ℤ) (cfg : Config) where
  -- The interceptor after sends that ask it one after the other, and those that it let through.
  unfoldable pub send_all :
      SendInterceptor × List Admitted → List Send → SendInterceptor × List Admitted
  send_all s [] = s
  send_all (s, log) (x ∷ xs) =
      let asked = before_send today_key sample cfg s x.request x.moment in
      send_all
        (
          asked.0,
          if not (is_some asked.1)
              then record { request = x.request; at = x.moment.reserve_at } ∷ log
              else log,
        )
        xs

  reserve_caps-is_some :
      (c : SendCaps) (req : SendRequest) (now : ℕ)
      → is_some (reserve_caps cfg (some c) req now).1 ≡ is_some (reserve cfg c req now).refusal
  unfolding reserve_caps
  reserve_caps-is_some c req now = ground arith

  module _ (cap : Cap) (r : String) (limit : ℕ) (on : cfg.caps_enabled ≡ true)
      (set : limit_of cfg cap ≡ pos limit) (positive : 0 < limit) where
    abbrev Holds : ℕ → SendInterceptor × List Admitted → Type 0
    Holds now (s, log) = (c : SendCaps) × (s.caps ≡ some c) × Kept cfg cap r limit now (c, log)

    Kept-later :
        (s : SendCaps × List Admitted) (last now : ℕ)
        → last ≤ now
        → Kept cfg cap r limit last s
        → Kept cfg cap r limit now s
    Kept-later s last now le k = record {
      tracks = Tracks-later _ last now _ _ le k.tracks;
      ceiling = k.ceiling;
    }

    abbrev after :
        SendInterceptor → SendRequest → Moment → List Admitted → SendInterceptor × List Admitted
    after s req m log =
        let asked = before_send today_key sample cfg s req m in
        (
          asked.0,
          if not (is_some asked.1) then record { request = req; at = m.reserve_at } ∷ log else log,
        )

    -- One send: it is refused before the check, by the check, by the wait or by the reservation, or
    -- it is let through.
    before_send-Holds :
        (c : SendCaps) (p : Option PacingState) (req : SendRequest) (m : Moment)
        (log : List Admitted) (last : ℕ)
        → last ≤ m.check_at
        → m.check_at ≤ m.reserve_at
        → Kept cfg cap r limit last (c, log)
        → Holds m.reserve_at (after (record { caps = some c; pacing = p }) req m log)
    unfolding step before_send check_caps reserve_caps
    before_send-Holds c p req m log last le le' k =
        let gate = send_gate today_key cfg p m.warm_up_at in
        let checked =
          step-Kept cfg cap r limit on set positive (c, log) (checks req m.check_at) last le k in
        let reserved =
          step-Kept cfg cap r limit on set positive _ (reserves req m.reserve_at) m.check_at le'
            checked in
        elim (Option-cases gate.1) [
          | inr (e, stopped) ↦
              rw (stopped, before_send)
                (c, refl, Kept-later (c, log) last m.reserve_at (omega (arith, le, le')) k)
          | inl passed ↦ elim (Option-cases (check cfg c req m.check_at).1) [
            | inr (e, full) ↦
                rw (passed, full, before_send, check_caps)
                  (_, refl, Kept-later _ m.check_at m.reserve_at le' checked)
            | inl room ↦ elim (Option-cases (pace today_key sample cfg gate.0 req m).1) [
              | inr (e, ended) ↦
                  rw (passed, room, ended, before_send, check_caps)
                    (_, refl, Kept-later _ m.check_at m.reserve_at le' checked)
              | inl waited ↦
                  rw (passed, room, waited, before_send, check_caps, reserve_caps)
                    (
                      _,
                      refl,
                      rw (reserve_caps-is_some (check cfg c req m.check_at).0 req m.reserve_at)
                          reserved,
                    )
            ]
          ]
        ]

    send_all-Holds :
        (xs : List Send) (last : ℕ) (s : SendInterceptor × List Admitted)
        → Ordered last xs
        → Holds last s
        → Holds (end_of last xs) (send_all s xs)
    unfolding send_all
    send_all-Holds [] last s o k = k
    send_all-Holds (x ∷ xs) last (s, log) o (c, there, k) =
        send_all-Holds xs x.moment.reserve_at (after s x.request x.moment log) o.2 (
          subst
            (λ (caps : Option SendCaps).
              Holds x.moment.reserve_at
                (after (record { caps = caps; pacing = s.pacing }) x.request x.moment log))
            (sym there) (before_send-Holds c s.pacing x.request x.moment log last o.0 o.1 k))

    -- With the caps enabled, a clock that does not step back and no state file at the start, of
    -- sends that ask BeforeSend one after the other, whatever each of them is answered: for each of
    -- the six caps whose limit is positive and each chat, no window of the cap's length holds more
    -- sends that were let through than the limit; and the window that the caps keep counts, for
    -- every instant since the last send, exactly the sends that were let through: one that the
    -- health monitor, the warm-up, a check or the end of its context refused, before or during the
    -- wait, takes no slot.
    pub send_all-slots :
        (pacing : Option PacingState) (start : ℕ) (sends : List Send)
        → Ordered start sends
        → let s =
            send_all
              (record { caps = some (new_send_caps cfg missing start); pacing = pacing }, [])
              sends in
          ((from : ℕ) → within (window_length cap) from (instants cfg (slot_of cap r) s.1) ≤ limit)
          × (c : SendCaps) × (s.0.caps ≡ some c)
          × ((now : ℕ)
              → end_of start sends ≤ now
              → recent (span (slot_of cap r)) now (window_of c (slot_of cap r))
                ≡ recent (span (slot_of cap r)) now (instants cfg (slot_of cap r) s.1))
    send_all-slots pacing start sends o =
        let s : SendInterceptor × List Admitted =
          (record { caps = some (new_send_caps cfg missing start); pacing = pacing }, []) in
        let (c, e, k) =
          send_all-Holds sends start s o (_, refl, Kept-missing cfg cap r limit start) in
        (k.ceiling, c, e, λ now le. k.tracks.same _ now (omega arith) le)
