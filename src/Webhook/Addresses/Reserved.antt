-- ===== src/Webhook/Addresses/Reserved.antt =====
-- Which addresses a webhook can reach, in intervals: whatsapp-bridge/internal/webhook/validation.go
-- and the dial check of webhook/delivery.go.
use whatsapp_mcp_pro.Base.{
  ℕ, ◌-◌, ◌*◌, ◌/◌, ◌%◌, ◌^◌, ◌≡◌, refl, ap, ◌⊎◌, inl, inr, List, [], ◌∷◌, some, Bool, true, false,
  ◌&&◌, ◌||◌, String, eq_iff, leb, ◌==◌, arith, All, Option-cases, Bool-cases,
}
use whatsapp_mcp_pro.Webhook.Addresses.{
  Ip, v4, v6, quad, contains, is_private_ip, AllowedAddr, endpoint, network, address, ip_eq,
  lets_through, allowed_private_target, Url, url_port, Net, blocked_hosts, is_blocked, passes,
  all_pass, validate_webhook_url, dial_allowed,
}

abbrev pub within : ℕ → ℕ → ℕ → Bool
within low high n = leb low n && leb n high

-- The ranges that are refused, first and last address: "this" network, 10/8, loopback, link-local,
-- 172.16/12, 192.168/16, and all from 224.0.0.0 on; in IPv6 the loopback address, unique local,
-- link-local unicast, and multicast of the link-local scope, whatever its flags.
unfoldable pub is_reserved : Ip → Bool
is_reserved (v4 n) =
    within 0 16777215 n
    || (within (quad 10 0 0 0) (quad 10 255 255 255) n
        || (within (quad 127 0 0 0) (quad 127 255 255 255) n
            || (within (quad 169 254 0 0) (quad 169 254 255 255) n
                || (within (quad 172 16 0 0) (quad 172 31 255 255) n
                    || (within (quad 192 168 0 0) (quad 192 168 255 255) n
                        || within (quad 224 0 0 0) (quad 255 255 255 255) n)))))
is_reserved (v6 n) =
    n == 1
    || (within (252 * 2 ^ 120) (254 * 2 ^ 120 - 1) n
        || (within (1018 * 2 ^ 118) (1019 * 2 ^ 118 - 1) n
            || (within (255 * 2 ^ 120) (2 ^ 128 - 1) n && (n / 2 ^ 112) % 16 == 2)))

is_private_ip_lem : (ip : Ip) → is_private_ip ip ≡ is_reserved ip
unfolding is_private_ip is_reserved
is_private_ip_lem (v4 n) = ground arith
is_private_ip_lem (v6 n) = ground arith

-- An entry of the list that names an address and a port.
abbrev pub Names : AllowedAddr → Ip → String → Type 0
Names (endpoint a p) ip port = (a ≡ ip) × (p ≡ port)
Names (network block) ip port = contains block ip ≡ true
Names (address a) ip port = a ≡ ip

abbrev pub Listed : List AllowedAddr → Ip → String → Type 0
Listed [] ip port = ⊥
Listed (e ∷ es) ip port = Names e ip port ⊎ Listed es ip port

-- Not in a refused range, or named by the list.
abbrev pub Reachable : Net → String → Ip → Type 0
Reachable net port ip = (is_reserved ip ≡ false) ⊎ Listed net.allowed ip port

ip_eq_lem : (a b : Ip) → ip_eq a b ≡ true → a ≡ b
ip_eq_lem (v4 a) (v4 b) e = ap v4 (ground (arith, e))
ip_eq_lem (v6 a) (v6 b) e = ap v6 (ground (arith, e))
ip_eq_lem (v4 a) (v6 b) e = cc
ip_eq_lem (v6 a) (v4 b) e = cc

lets_through-Names :
    (e : AllowedAddr) (ip : Ip) (port : String) → lets_through e ip port ≡ true → Names e ip port
unfolding lets_through
lets_through-Names (endpoint a p) ip port e =
    (ip_eq_lem a ip (ground (arith, e)), ground (arith, e, eq_iff p port))
lets_through-Names (network block) ip port e = e
lets_through-Names (address a) ip port e = ip_eq_lem a ip e

allowed_private_target-Listed :
    (es : List AllowedAddr) (ip : Ip) (port : String)
    → allowed_private_target es ip port ≡ true
    → Listed es ip port
unfolding allowed_private_target
allowed_private_target-Listed [] ip port e = absurd (ground (arith, e))
allowed_private_target-Listed (a ∷ es) ip port e = elim (Bool-cases (lets_through a ip port)) [
  | inl through ↦ inl (lets_through-Names a ip port through)
  | inr not_a ↦ inr (allowed_private_target-Listed es ip port (ground (arith, e, not_a)))
]

passes-Reachable :
    (net : Net) (ip : Ip) (port : String) → passes net ip port ≡ true → Reachable net port ip
passes-Reachable net ip port e = elim (Bool-cases (is_reserved ip)) [
  | inr public ↦ inl public
  | inl reserved ↦ inr (
      allowed_private_target-Listed net.allowed ip port
        (ground (arith, e, is_private_ip_lem ip, reserved)))
]

all_pass-Reachable :
    (net : Net) (ips : List Ip) (port : String)
    → all_pass net ips port ≡ true
    → All (Reachable net port) ips
unfolding all_pass
all_pass-Reachable net [] port e = tt
all_pass-Reachable net (ip ∷ ips) port e = (
  passes-Reachable net ip port (ground (arith, e)),
  all_pass-Reachable net ips port (ground (arith, e)),
)

-- With the check on, a URL that is accepted parses to a host that is not blocked and resolves to
-- addresses that are outside the refused ranges or on the list of allowed ones, and an address
-- that is dialled is so too, whatever the resolver answers by then.
pub validated_Reachable :
    (net : Net) (text : String) (ip : Ip) (port : String)
    → net.check_off ≡ false
    → validate_webhook_url net text ≡ true
    → dial_allowed net (some ip) port ≡ true
    → ((u : Url) × ((net.parse text ≡ some u)
          × ((is_blocked net u.hostname blocked_hosts ≡ false)
              × ((ips : List Ip) × ((net.lookup_ip u.hostname ≡ some ips)
                    × All (Reachable net (url_port u)) ips)))))
      × Reachable net port ip
unfolding validate_webhook_url dial_allowed
validated_Reachable net text ip port on accepted dialled = elim (Option-cases (net.parse text)) [
  | inl bad ↦ absurd (ground (arith, on, accepted, bad))
  | inr (u, parsed) ↦ elim (Option-cases (net.lookup_ip u.hostname)) [
    | inl unknown ↦ absurd (ground (arith, on, accepted, parsed, unknown))
    | inr (ips, found) ↦ (
      (
        u,
        (
          parsed,
          (
            ground (arith, on, accepted, parsed, found),
            (
              ips,
              (
                found,
                all_pass-Reachable net ips (url_port u)
                    (ground (arith, on, accepted, parsed, found)),
              ),
            ),
          ),
        ),
      ),
      passes-Reachable net ip port (ground (arith, on, dialled)),
    )
  ]
]

-- The unspecified IPv6 address, which Linux takes for this machine, and the shared range 100.64/10.
abbrev pub Unguarded : Ip → Type 0
Unguarded (v4 n) = within (quad 100 64 0 0) (quad 100 127 255 255) n ≡ true
Unguarded (v6 n) = n ≡ 0

Unguarded-public : (ip : Ip) → Unguarded ip → is_private_ip ip ≡ false
unfolding is_private_ip
Unguarded-public (v4 n) h = ground (arith, h)
Unguarded-public (v6 n) h = ground (arith, h)

Unguarded-all_pass :
    (net : Net) (port : String) (ips : List Ip) → All Unguarded ips → all_pass net ips port ≡ true
unfolding all_pass
Unguarded-all_pass net port [] h = refl
Unguarded-all_pass net port (ip ∷ ips) h =
    ground (arith, Unguarded-public ip h.0, Unguarded-all_pass net port ips h.1)

-- A URL whose host is not blocked and resolves only to the unspecified IPv6 address or to shared
-- addresses is accepted, and the first of them may be dialled, whatever the list of allowed
-- addresses holds.
pub validate-Unguarded :
    (net : Net) (text : String) (u : Url) (ip : Ip) (ips : List Ip)
    → net.parse text ≡ some u
    → is_blocked net u.hostname blocked_hosts ≡ false
    → net.lookup_ip u.hostname ≡ some (ip ∷ ips)
    → All Unguarded (ip ∷ ips)
    → (validate_webhook_url net text ≡ true) × (dial_allowed net (some ip) (url_port u) ≡ true)
unfolding validate_webhook_url dial_allowed
validate-Unguarded net text u ip ips parsed free found open' = (
  ground (arith, parsed, free, found, Unguarded-all_pass net (url_port u) (ip ∷ ips) open'),
  ground (arith, Unguarded-public ip open'.0),
)
