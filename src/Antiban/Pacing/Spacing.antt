-- ===== src/Antiban/Pacing/Spacing.antt =====
-- The bounds of a delay, and the distance that it keeps between sends.
use whatsapp_mcp_pro.Base.{ℕ, ◌+◌, ◌≤◌, ◌<◌, ◌≡◌, subst, true, ℤ, pos, negsuc, ◌≤ℤ◌, arith}
use whatsapp_mcp_pro.Antiban.Config.{Config, MessageType}
use whatsapp_mcp_pro.Antiban.Pacing.{Bounds, delay_bounds, ordered, compute_delay, wait_delay, wait}

ordered_le : (b : Bounds) → (ordered b).low ≤ℤ (ordered b).high
unfolding ordered
ordered_le b = ground arith

-- Whatever is drawn, the delay lies between the two bounds of the message type, put in order.
pub compute_delay_bounds :
    (sample : Bounds → ℤ) (cfg : Config) (type : MessageType) (len : ℕ)
    → let b = ordered (delay_bounds cfg type len) in
      (b.low ≤ℤ compute_delay sample cfg type len) × (compute_delay sample cfg type len ≤ℤ b.high)
unfolding compute_delay
compute_delay_bounds sample cfg type len = ground (arith, ordered_le (delay_bounds cfg type len))

wait_delay_spaced :
    (d : ℤ) (low last now : ℕ) → pos low ≤ℤ d → 0 < last → last + low ≤ now + wait_delay d last now
unfolding wait_delay
wait_delay_spaced (pos d) low last now h p = ground arith
wait_delay_spaced (negsuc n) low last now h p = absurd (omega arith)

-- With pacing on, the instant at which a send may go out is not before the call, and at least the
-- lower bound of its message type after the instant of the send before it, whatever is drawn and
-- whenever it is asked for.
pub wait_spacing :
    (sample : Bounds → ℤ) (cfg : Config) (last : ℕ) (type : MessageType) (len now low : ℕ)
    → cfg.enabled ≡ true
    → 0 < last
    → (ordered (delay_bounds cfg type len)).low ≡ pos low
    → (now ≤ (wait sample cfg last type len now).last_send)
      × (last + low ≤ (wait sample cfg last type len now).last_send)
      × ((wait sample cfg last type len now).last_send
          ≡ now + (wait sample cfg last type len now).delay)
unfolding wait
wait_spacing sample cfg last type len now low on p e =
    let d = compute_delay sample cfg type len in
    let above : pos low ≤ℤ d = subst (λ b. b ≤ℤ d) e (compute_delay_bounds sample cfg type len).0 in
    ground (arith, wait_delay_spaced d low last now above)
