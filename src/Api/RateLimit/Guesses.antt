-- ===== src/Api/RateLimit/Guesses.antt =====
-- How many API keys a client can try, with the chain of whatsapp-bridge/internal/api/middleware.go.
use whatsapp_mcp_pro.Base.{
  ℕ, ◌+◌, ◌-◌, ◌*◌, ◌≤◌, ◌≡◌, refl, subst, sym, if_ind, inl, inr, List, [], ◌∷◌, Option, Bool, true,
  false, ◌&&◌, ◌||◌, String, str_eq, eq_iff, if◌then◌else◌, arith, lookup, Bool-cases,
}
use whatsapp_mcp_pro.Api.RateLimit.{
  rate_limit, rate_limit_window, HttpRequest, ApiEnv, Response, preflight_ok, rate_limited,
  unauthorized, served, Limits, take_slot, janitor, client_ip, is_authenticated_loopback,
  authenticate, limit_rate, secure,
}
use whatsapp_mcp_pro.Api.RateLimit.Slots.{take_slot-other}
use whatsapp_mcp_pro.Api.RateLimit.Windows.{
  BoundedAt, BoundedAt-views, BoundedAt-later, BoundedAt-fewer, take_slot-BoundedAt,
  drop_stale-BoundedAt,
}

abbrev pub is_unauthorized : Response → Bool
is_unauthorized unauthorized = true
is_unauthorized _ = false

-- A request or a run of the janitor, at an instant.
pub data Event : Type 0 where
  requests : HttpRequest → ℕ → Event
  sweeps : ℕ → Event

abbrev pub instant : Event → ℕ
instant (requests r now) = now
instant (sweeps now) = now

abbrev pub InOrder : ℕ → List Event → Type 0
InOrder last [] = Unit
InOrder last (e ∷ es) = (last ≤ instant e) × InOrder (instant e) es

-- The last instant.
unfoldable pub finish : ℕ → List Event → ℕ
finish last [] = last
finish last (e ∷ es) = finish (instant e) es

module _ (split_host_port : String → Option String) (is_loopback : String → Bool)
    (first_address : String → String) (env : ApiEnv) where
  -- The keys of requests of an address that were compared and found wrong.
  unfoldable pub step : String → Event → Limits → Limits × ℕ
  step ip (requests r now) s =
      let answer = secure split_host_port is_loopback first_address env r now s in
      (
        answer.0,
        if is_unauthorized answer.1
              && str_eq (client_ip split_host_port is_loopback first_address env r) ip
            then 1
            else 0,
      )
  step ip (sweeps now) s = (janitor now s, 0)

  unfoldable pub guesses : String → List Event → Limits → ℕ
  guesses ip [] s = 0
  guesses ip (e ∷ es) s = let (s', n) = step ip e s in n + guesses ip es s'

  -- A request that carries the key is served or limited, whoever sends it.
  exempt_authorized :
      (r : HttpRequest)
      → is_authenticated_loopback split_host_port is_loopback first_address env r ≡ true
      → authenticate split_host_port is_loopback first_address env r ≡ served
  unfolding is_authenticated_loopback authenticate
  exempt_authorized r e = ground (arith, e)

  -- A request is served only if the check is off, no key is configured, or it carries the key.
  pub secure_served :
      (r : HttpRequest) (now : ℕ) (s : Limits)
      → (secure split_host_port is_loopback first_address env r now s).1 ≡ served
      → env.disable_auth_check || str_eq env.expected_key "" || str_eq r.api_key env.expected_key
        ≡ true
  unfolding secure limit_rate authenticate
  secure_served r now s h = ground (arith, h)

  -- A request of this machine with the key, other than a preflight one, is always served, whatever
  -- the windows and counts, and leaves them as they are.
  pub secure_exempt :
      (r : HttpRequest) (now : ℕ) (s : Limits)
      → r.preflight ≡ false
      → is_authenticated_loopback split_host_port is_loopback first_address env r ≡ true
      → secure split_host_port is_loopback first_address env r now s ≡ (s, served)
  unfolding secure limit_rate authenticate is_authenticated_loopback
  secure_exempt r now s p e = ground (arith, p, e)

  module _ (ip : String) (start : ℕ) where
    counted : HttpRequest → Limits × Response → ℕ
    counted r a =
        if is_unauthorized a.1
          && str_eq (client_ip split_host_port is_loopback first_address env r) ip
        then 1
        else 0

    record After (r : HttpRequest) (now n : ℕ) (a : Limits × Response) : Type 0 where
      bounded : BoundedAt ip start now (n + counted r a) a.0

    own-BoundedAt :
        (c : String) (last now n m : ℕ) (s : Limits)
        → ip ≡ c
        → last ≤ now
        → m ≤ n + (if (take_slot c now s).1 then 1 else 0)
        → BoundedAt ip start last n s
        → BoundedAt ip start now m (take_slot c now s).0
    own-BoundedAt c last now n m s same le lm k =
        subst
          (λ j.
            m ≤ n + (if (take_slot j now s).1 then 1 else 0)
            → BoundedAt ip start now m (take_slot j now s).0)
          same (λ lm'. take_slot-BoundedAt ip start last now n m s le lm' k) lm

    limited-After :
        (r : HttpRequest) (last now n : ℕ) (s : Limits)
        → last ≤ now
        → BoundedAt ip start last n s
        → let slot = take_slot (client_ip split_host_port is_loopback first_address env r) now s in
          After r now n (
            slot.0,
            if slot.1
                then authenticate split_host_port is_loopback first_address env r
                else rate_limited,
          )
    unfolding counted
    limited-After r last now n s le k =
        let c = client_ip split_host_port is_loopback first_address env r in
        let slot = take_slot c now s in
        elim (Bool-cases (str_eq c ip)) [
          | inl own ↦ record {
            bounded =
                own-BoundedAt c last now n _ s (ground (arith, own, eq_iff c ip)) le (ground arith)
                  k;
          }
          | inr other ↦
              let (ew, ec) = take_slot-other ip c now s other in
              record {
                bounded = BoundedAt-fewer ip start now n _ slot.0 (ground (arith, other)) (
                    BoundedAt-views ip start now n s slot.0 ew ec
                      (BoundedAt-later ip start last now n s le k));
              }
        ]

    secure-After :
        (r : HttpRequest) (last now n : ℕ) (s : Limits)
        → last ≤ now
        → BoundedAt ip start last n s
        → After r now n (secure split_host_port is_loopback first_address env r now s)
    unfolding secure limit_rate counted
    secure-After r last now n s le k =
        let later = BoundedAt-later ip start last now n s le k in
        let rest = limit_rate split_host_port is_loopback first_address env r now s in
        let slot = take_slot (client_ip split_host_port is_loopback first_address env r) now s in
        let answer = authenticate split_host_port is_loopback first_address env r in
        let limited : Limits × Response = (slot.0, if slot.1 then answer else rate_limited) in
        let exempt = is_authenticated_loopback split_host_port is_loopback first_address env r in
        if_ind (After r now n) r.preflight (s, preflight_ok) rest
          (record { bounded = BoundedAt-fewer ip start now n _ s (ground arith) later })
          λ _. elim (Bool-cases exempt) [
            | inl known ↦
                subst (λ b. After r now n (if b then (s, answer) else limited)) (sym known)
                  (record {
                    bounded =
                        BoundedAt-fewer ip start now n _ s
                          (ground (arith, exempt_authorized r known)) later;
                  })
            | inr unknown ↦
                subst (λ b. After r now n (if b then (s, answer) else limited)) (sym unknown)
                  (limited-After r last now n s le k)
          ]

    step-BoundedAt :
        (e : Event) (last n : ℕ) (s : Limits)
        → last ≤ instant e
        → BoundedAt ip start last n s
        → BoundedAt ip start (instant e) (n + (step ip e s).1) (step ip e s).0
    unfolding step janitor counted
    step-BoundedAt (sweeps now) last n s le k =
        BoundedAt-fewer ip start now n _ (janitor now s) (omega arith)
          (drop_stale-BoundedAt ip start now n _ s (BoundedAt-later ip start last now n s le k))
    step-BoundedAt (requests r now) last n s le k = (secure-After r last now n s le k).bounded

    run-BoundedAt :
        (es : List Event) (last n : ℕ) (s : Limits)
        → InOrder last es
        → start ≤ last
        → BoundedAt ip start last n s
        → (n + guesses ip es s) * rate_limit_window
          ≤ rate_limit * (finish last es - start + rate_limit_window)
    unfolding guesses finish
    run-BoundedAt [] last n s o a (inl (k, w, c, b)) =
        ground (arith, b.after, b.before, b.let_through)
    run-BoundedAt [] last n s o a (inr (k, b)) = ground (arith, b.after, b.let_through)
    run-BoundedAt (e ∷ es) last n s o a k = ground (
      arith,
      run-BoundedAt es (instant e) (n + (step ip e s).1) (step ip e s).0 o.1 (omega (arith, a, o.0))
          (step-BoundedAt e last n s o.0 k),
    )

  -- A client cannot guess fast: whatever requests and runs of the janitor follow one another in the
  -- order of their instants, from empty maps on, the requests of one address that were compared with
  -- the key and answered 401 are at most 100 for each minute, and 100 more.
  pub guesses_bounded :
      (ip : String) (start : ℕ) (es : List Event)
      → InOrder start es
      → guesses ip es (record { windows = []; counts = [] }) * rate_limit_window
        ≤ rate_limit * (finish start es - start + rate_limit_window)
  unfolding lookup
  guesses_bounded ip start es o =
      let bound =
        run-BoundedAt ip start es start 0 (record { windows = []; counts = [] }) o (omega arith)
          (inr (0, record { no_window = refl; after = omega arith; let_through = omega arith })) in
      omega (arith, bound)
