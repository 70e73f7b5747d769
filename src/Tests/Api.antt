-- ===== src/Tests/Api.antt =====
-- Instances for whatsapp-bridge/internal/api/middleware.go.
use whatsapp_mcp_pro.Base.{
  ◌+◌, ◌*◌, ◌-◌, ◌≤◌, ◌≡◌, refl, List, [], ◌∷◌, Option, none, Bool, true, false, String, arith,
  str_eq, ◌||◌,
}
use whatsapp_mcp_pro.Api.RateLimit.{
  rate_limit, rate_limit_window, HttpRequest, ApiEnv, Limits, secure, limit_rate, authenticate,
  is_authenticated_loopback,
}
use whatsapp_mcp_pro.Api.RateLimit.Guesses.{
  Event, requests, sweeps, finish, guesses, secure_served, guesses_bounded,
}

-- Addresses without a port, of which one is this machine.
abbrev no_port : String → Option String
no_port a = none

abbrev is_local : String → Bool
is_local a = str_eq a "127.0.0.1"

abbrev whole : String → String
whole a = a

abbrev env : ApiEnv
env = record { trust_proxy_headers = false; disable_auth_check = false; expected_key = "secret" }

abbrev guess : HttpRequest
guess = record {
  preflight = false;
  remote_addr = "10.0.0.9";
  forwarded_for = "";
  api_key = "guess";
}

abbrev local_request : HttpRequest
local_request = record guess { remote_addr = "127.0.0.1"; api_key = "secret" }

abbrev empty : Limits
empty = record { windows = []; counts = [] }

abbrev events : List Event
events = requests guess 1000 ∷ sweeps 2000 ∷ requests guess (1000 + 2 * rate_limit_window) ∷ []

guesses_bounded_example :
    guesses no_port is_local whole env "10.0.0.9" events empty * rate_limit_window
    ≤ rate_limit * (finish 0 events - 0 + rate_limit_window)
guesses_bounded_example =
    guesses_bounded no_port is_local whole env "10.0.0.9" 0 events
      (omega arith, (omega arith, (omega arith, tt)))

secure_served_example :
    env.disable_auth_check
      || str_eq env.expected_key ""
      || str_eq local_request.api_key env.expected_key
    ≡ true
unfolding secure limit_rate authenticate is_authenticated_loopback
secure_served_example = secure_served no_port is_local whole env local_request 5 empty refl
