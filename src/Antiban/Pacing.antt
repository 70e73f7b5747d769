-- ===== src/Antiban/Pacing.antt =====
-- The rate limiter of whatsapp-bridge/internal/antiban/ratelimiter.go. The random delay before its
-- bounds, a floating-point sample, is a parameter: the standard library draws it.
pub mod Spacing
use whatsapp_mcp_pro.Base.{
  ℕ, ◌+◌, ◌-◌, ◌*◌, ◌≤◌, ◌≡◌, refl, Bool, true, false, ◌&&◌, ℤ, pos, negsuc, ◌+ℤ◌, ◌≤ℤ◌, ltb_ℤ,
  leb_ℤ, pos_part, neg_part, ltb, ◌==◌, arith, if◌then◌else◌, min,
}
use whatsapp_mcp_pro.Antiban.Config.{
  Config, MessageType, text, reaction, edit, delete, poll, peer, other, millisecond, second,
}

-- Two bounds of a delay.
pub record Bounds : Type 0 where
  pub low : ℤ
  pub high : ℤ

-- The typing time that a text adds: 0 where the code adds none, and at most 3 seconds.
unfoldable pub typing_delay : Config → ℕ → ℕ
typing_delay cfg len =
    if ltb 0 len && ltb_ℤ (pos 0) cfg.typing_ms_per_char
    then min (len * pos_part cfg.typing_ms_per_char * millisecond) (3 * second)
    else 0

-- The `switch` of `computeDelay`.
unfoldable pub delay_bounds : Config → MessageType → ℕ → Bounds
unfolding typing_delay
delay_bounds cfg text len = record {
  low = cfg.text_delay_min +ℤ pos (typing_delay cfg len);
  high = cfg.text_delay_max +ℤ pos (typing_delay cfg len);
}
delay_bounds cfg poll len = record {
  low = cfg.text_delay_min +ℤ pos (typing_delay cfg len);
  high = cfg.text_delay_max +ℤ pos (typing_delay cfg len);
}
delay_bounds cfg reaction len = record {
  low = cfg.feedback_delay_min;
  high = cfg.feedback_delay_max;
}
delay_bounds cfg edit len = record { low = cfg.feedback_delay_min; high = cfg.feedback_delay_max }
delay_bounds cfg delete len = record { low = cfg.feedback_delay_min; high = cfg.feedback_delay_max }
delay_bounds cfg peer len = record { low = pos 0; high = pos (500 * millisecond) }
delay_bounds cfg (other n) len = record { low = cfg.text_delay_min; high = cfg.text_delay_max }

-- The swap of bounds that are in the wrong order.
unfoldable pub ordered : Bounds → Bounds
ordered b = if ltb_ℤ b.high b.low then record { low = b.high; high = b.low } else b

-- The end of `computeDelay`; `sample` draws from the bounds, and is not bounded itself.
unfoldable pub compute_delay : (Bounds → ℤ) → Config → MessageType → ℕ → ℤ
unfolding ordered
compute_delay sample cfg type len =
    let b = ordered (delay_bounds cfg type len) in
    let value = sample b in
    if leb_ℤ b.high b.low
    then b.low
    else if ltb_ℤ value b.low
    then b.low
    else if ltb_ℤ b.high value
    then b.high
    else value

-- What `Wait` leaves when its context is live: the delay, and the new `lastSend`; 0 is Go's zero
-- time. The delay that is still to be waited is what the time since `lastSend` leaves of it.
unfoldable pub wait_delay : ℤ → ℕ → ℕ → ℕ
wait_delay (negsuc n) last now = if ltb now last then last - now - (n + 1) else 0
wait_delay (pos d) last now = if last == 0 then d else d + last - now

pub record Waited : Type 0 where
  pub last_send : ℕ
  pub delay : ℕ

unfoldable pub wait : (Bounds → ℤ) → Config → ℕ → MessageType → ℕ → ℕ → Waited
wait sample cfg last type len now =
    let delay = wait_delay (compute_delay sample cfg type len) last now in
    if cfg.enabled
    then record { last_send = now + delay; delay = delay }
    else record { last_send = now; delay = 0 }
