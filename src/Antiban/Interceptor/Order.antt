-- ===== src/Antiban/Interceptor/Order.antt =====
-- What Precheck says of BeforeSend, and what a refused send leaves as it was
-- (whatsapp-bridge/internal/antiban/antiban.go).
use whatsapp_mcp_pro.Base.{ℕ, ◌≡◌, refl, ◌⊎◌, Option, none, some, ℤ, String, arith}
use whatsapp_mcp_pro.Antiban.Config.{Config}
use whatsapp_mcp_pro.Antiban.Caps.{SendRequest}
use whatsapp_mcp_pro.Antiban.Pacing.{Bounds}
use whatsapp_mcp_pro.Antiban.Interceptor.{
  PacingState, SendInterceptor, Refusal, health_paused, warm_up_limit_reached, Moment, check_caps,
  reserve_caps, send_gate, pacing_gate, precheck, pace, before_send,
}

module _ (today_key : ℕ → String) (sample : Bounds → ℤ) (cfg : Config) where
  send_gate-pacing_gate :
      (o : Option PacingState) (now : ℕ)
      → send_gate today_key cfg o now ≡ pacing_gate today_key cfg o now
  unfolding send_gate pacing_gate
  send_gate-pacing_gate none now = refl
  send_gate-pacing_gate (some p) now = refl

  -- A send that Precheck refuses is refused by BeforeSend at the same readings of the clock, for
  -- the same reason, and with the same state: it neither waits nor takes a slot.
  pub before_send-precheck :
      (s : SendInterceptor) (req : SendRequest) (m : Moment) (r : Refusal)
      → (precheck today_key cfg s req m).1 ≡ some r
      → before_send today_key sample cfg s req m ≡ precheck today_key cfg s req m
  unfolding before_send precheck
  before_send-precheck s req m r e = ground (arith, send_gate-pacing_gate s.pacing m.warm_up_at)

  -- A refusal by the health monitor or by the warm-up leaves the caps untouched.
  pub before_send_refused_caps :
      (s : SendInterceptor) (req : SendRequest) (m : Moment)
      → ((before_send today_key sample cfg s req m).1 ≡ some health_paused)
        ⊎ ((before_send today_key sample cfg s req m).1 ≡ some warm_up_limit_reached)
      → (before_send today_key sample cfg s req m).0.caps ≡ s.caps
  unfolding before_send send_gate check_caps reserve_caps pace
  before_send_refused_caps s req m e = ground arith
