-- ===== src/Antiban/WarmUp/Days.antt =====
-- What the warm-up counts, and how far its limit holds (whatsapp-bridge/internal/antiban/warmup.go).
use whatsapp_mcp_pro.Base.{ℕ, ◌+◌, List, [], ◌∷◌, String}
use whatsapp_mcp_pro.Antiban.Config.{Config}
use whatsapp_mcp_pro.Antiban.WarmUp.{WarmUpState, can_send, record_send}

-- A call of the warm-up, at an instant.
pub data Call : Type 0 where
  asks records : ℕ → Call

abbrev pub recorded : List Call → ℕ
recorded [] = 0
recorded (asks now ∷ calls) = recorded calls
recorded (records now ∷ calls) = recorded calls + 1

module _ (today_key : ℕ → String) where
  abbrev pub after : Config → WarmUpState → Call → WarmUpState
  after cfg s (asks now) = (can_send today_key cfg s now).0
  after cfg s (records now) = record_send today_key s now

  unfoldable pub run : Config → WarmUpState → List Call → WarmUpState
  run cfg s [] = s
  run cfg s (call ∷ calls) = run cfg (after cfg s call) calls
