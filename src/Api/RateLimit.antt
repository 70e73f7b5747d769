-- ===== src/Api/RateLimit.antt =====
-- The middleware chain of whatsapp-bridge/internal/api/middleware.go, for one handler: the rate
-- limiter and the check of the API key. Go's net and strings are given: `split_host_port` is the
-- host of "host:port", `is_loopback` whether a host is an IP of this machine, and `first_address`
-- the first entry of a comma-separated list, trimmed. Headers of the response are left out.
pub mod Slots
pub mod Windows
pub mod Guesses
use whatsapp_mcp_pro.Base.{
  ℕ, ◌+◌, ◌-◌, ◌*◌, ◌^◌, List, [], ◌∷◌, map, Option, none, some, Bool, true, false, not, ◌&&◌, ◌||◌,
  String, str_eq, ltb, leb, if◌then◌else◌, value_or, Dict, lookup, insert, delete,
}

-- Requests per window, and the window in nanoseconds.
abbrev pub rate_limit : ℕ
rate_limit = 100

abbrev pub rate_limit_window : ℕ
rate_limit_window = 60000000000

-- What the chain reads of a request, and of the environment.
pub record HttpRequest : Type 0 where
  pub preflight : Bool
  pub remote_addr : String
  pub forwarded_for : String
  pub api_key : String

pub record ApiEnv : Type 0 where
  pub trust_proxy_headers : Bool
  pub disable_auth_check : Bool
  pub expected_key : String

pub data Response : Type 0 where
  preflight_ok rate_limited unauthorized served : Response

-- `requestWindows` and `requestCounts`
pub record Limits : Type 0 where
  pub windows : Dict ℕ
  pub counts : Dict ℕ

-- A request opens a window if the address has none, or an expired one.
unfoldable pub opens_window : ℕ → Option ℕ → Bool
opens_window now none = true
opens_window now (some w) = ltb rate_limit_window (now - w)

-- The locked part of `RateLimitMiddleware`, and whether the count is within the limit.
unfoldable pub take_slot : String → ℕ → Limits → Limits × Bool
take_slot ip now s =
    let opens = opens_window now (lookup ip s.windows) in
    let windows = if opens then insert ip now s.windows else s.windows in
    let reset = if opens then insert ip 0 s.counts else s.counts in
    let n = value_or 0 (lookup ip reset) + 1 in
    (record { windows = windows; counts = insert ip n reset }, leb n rate_limit)

-- The loop of `startRateLimitJanitor`, over the addresses that have a window.
abbrev pub is_stale : ℕ → Option ℕ → Bool
is_stale now none = false
is_stale now (some w) = ltb (w + rate_limit_window) now

unfoldable pub drop_stale : ℕ → List String → Limits → Limits
drop_stale now [] s = s
drop_stale now (ip ∷ ips) s = drop_stale now ips (
    if is_stale now (lookup ip s.windows)
    then record { windows = delete ip s.windows; counts = delete ip s.counts }
    else s)

unfoldable pub janitor : ℕ → Limits → Limits
janitor now s = drop_stale now (map (λ (entry : String × ℕ). entry.0) s.windows) s

module _ (split_host_port : String → Option String) (is_loopback : String → Bool)
    (first_address : String → String) where
  -- `clientIP`
  unfoldable pub client_ip : ApiEnv → HttpRequest → String
  client_ip env r =
      let ip =
        if env.trust_proxy_headers && not (str_eq r.forwarded_for "")
        then first_address r.forwarded_for
        else r.remote_addr in
      value_or ip (split_host_port ip)

  -- `isAuthenticatedLoopback`
  unfoldable pub is_authenticated_loopback : ApiEnv → HttpRequest → Bool
  is_authenticated_loopback env r =
      not (str_eq env.expected_key "")
      && is_loopback (value_or r.remote_addr (split_host_port r.remote_addr))
      && str_eq r.api_key env.expected_key

  -- `AuthMiddleware`
  unfoldable pub authenticate : ApiEnv → HttpRequest → Response
  authenticate env r =
      if env.disable_auth_check
      then served
      else if str_eq env.expected_key ""
      then served
      else if str_eq r.api_key env.expected_key
      then served
      else unauthorized

  -- `RateLimitMiddleware` before `AuthMiddleware`
  unfoldable pub limit_rate : ApiEnv → HttpRequest → ℕ → Limits → Limits × Response
  limit_rate env r now s =
      let slot = take_slot (client_ip env r) now s in
      if is_authenticated_loopback env r
      then (s, authenticate env r)
      else (slot.0, if slot.1 then authenticate env r else rate_limited)

  -- `SecureMiddleware`: `CorsMiddleware` answers a preflight request itself.
  unfoldable pub secure : ApiEnv → HttpRequest → ℕ → Limits → Limits × Response
  secure env r now s = if r.preflight then (s, preflight_ok) else limit_rate env r now s
