-- ===== src/Antiban/Config.antt =====
-- The settings and the message types of whatsapp-bridge/internal/antiban/config.go. An instant is a
-- number of nanoseconds since Go's zero time, and a duration a number of nanoseconds; where the
-- code lets an `int` be negative it is an integer.
use whatsapp_mcp_pro.Base.{ℕ, ◌*◌, ℤ, pos, Bool, true, false, String}

abbrev pub millisecond : ℕ
millisecond = 1_000_000

abbrev pub second : ℕ
second = 1_000_000_000

abbrev pub minute : ℕ
minute = 60_000_000_000

abbrev pub hour : ℕ
hour = 3_600_000_000_000

-- Message types; `other` is any further value of Go's `int`.
pub data MessageType : Type 0 where
  text reaction edit delete poll peer : MessageType
  other : ℕ → MessageType

pub data SendClass : Type 0 where
  class_message class_feedback class_exempt : SendClass

-- `MessageType.class`
abbrev pub class : MessageType → SendClass
class reaction = class_feedback
class edit = class_feedback
class delete = class_feedback
class peer = class_exempt
class _ = class_message

pub record Config : Type 0 where
  pub enabled : Bool
  pub text_delay_min : ℤ
  pub text_delay_max : ℤ
  pub feedback_delay_min : ℤ
  pub feedback_delay_max : ℤ
  pub typing_ms_per_char : ℤ
  pub warm_up_days : ℤ
  pub warm_up_start_limit : ℤ
  pub warm_up_state_path : String
  pub risk_pause_threshold : ℤ
  pub caps_enabled : Bool
  pub recipient_max_per_minute : ℤ
  pub recipient_max_per_hour : ℤ
  pub global_max_per_hour : ℤ
  pub new_recipients_per_day : ℤ
  pub feedback_max_per_minute : ℤ
  pub feedback_max_per_hour : ℤ
  pub caps_state_path : String

-- One variable of the environment: unset or empty, set to a text that the parser of its type
-- refuses, or set to a value.
pub data EnvVar {ℓ} (A : Type ℓ) : Type ℓ where
  unset : EnvVar A
  unparseable : EnvVar A
  parsed : A → EnvVar A

-- `loadBoolEnv`, `loadIntEnv`, `loadDurationEnv` and `loadStringEnv`, after the variable was read.
abbrev pub load_env {ℓ} : {A : Type ℓ} → EnvVar A → A → A
load_env unset fallback = fallback
load_env unparseable fallback = fallback
load_env (parsed a) fallback = a

-- The variables that `LoadConfig` reads.
pub record Environment : Type 0 where
  pub antiban_enabled : EnvVar Bool
  pub text_delay_min : EnvVar ℤ
  pub text_delay_max : EnvVar ℤ
  pub feedback_delay_min : EnvVar ℤ
  pub feedback_delay_max : EnvVar ℤ
  pub typing_ms_per_char : EnvVar ℤ
  pub warmup_days : EnvVar ℤ
  pub warmup_start_limit : EnvVar ℤ
  pub warmup_state_path : EnvVar String
  pub risk_pause_threshold : EnvVar ℤ
  pub caps_enabled : EnvVar Bool
  pub recipient_max_per_minute : EnvVar ℤ
  pub recipient_max_per_hour : EnvVar ℤ
  pub global_max_per_hour : EnvVar ℤ
  pub new_recipients_per_day : EnvVar ℤ
  pub feedback_max_per_minute : EnvVar ℤ
  pub feedback_max_per_hour : EnvVar ℤ
  pub caps_state_path : EnvVar String

unfoldable pub load_config : Environment → Config
load_config e = record {
  enabled = load_env e.antiban_enabled false;
  text_delay_min = load_env e.text_delay_min (pos (1500 * millisecond));
  text_delay_max = load_env e.text_delay_max (pos (4 * second));
  feedback_delay_min = load_env e.feedback_delay_min (pos (500 * millisecond));
  feedback_delay_max = load_env e.feedback_delay_max (pos (1500 * millisecond));
  typing_ms_per_char = load_env e.typing_ms_per_char (pos 30);
  warm_up_days = load_env e.warmup_days (pos 7);
  warm_up_start_limit = load_env e.warmup_start_limit (pos 20);
  warm_up_state_path = load_env e.warmup_state_path "store/antiban_warmup.json";
  risk_pause_threshold = load_env e.risk_pause_threshold (pos 70);
  caps_enabled = load_env e.caps_enabled true;
  recipient_max_per_minute = load_env e.recipient_max_per_minute (pos 15);
  recipient_max_per_hour = load_env e.recipient_max_per_hour (pos 60);
  global_max_per_hour = load_env e.global_max_per_hour (pos 120);
  new_recipients_per_day = load_env e.new_recipients_per_day (pos 10);
  feedback_max_per_minute = load_env e.feedback_max_per_minute (pos 20);
  feedback_max_per_hour = load_env e.feedback_max_per_hour (pos 300);
  caps_state_path = load_env e.caps_state_path "store/antiban_caps.json";
}
