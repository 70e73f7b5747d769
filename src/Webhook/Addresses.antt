-- ===== src/Webhook/Addresses.antt =====
-- The address checks of whatsapp-bridge/internal/webhook/validation.go, and the one at the moment of
-- dialling of webhook/delivery.go. A `v4` is also an IPv6 address that maps one, as Go's To4 has it.
-- Go's parsing of URLs and addresses, its case folding and the resolver are given: an entry of
-- WEBHOOK_ALLOWED_ADDRS is the address, the endpoint or the network that it parses to.
pub mod Reserved
use whatsapp_mcp_pro.Base.{
  ℕ, ◌+◌, ◌-◌, ◌*◌, ◌/◌, ◌%◌, ◌^◌, List, [], ◌∷◌, Option, none, some, Bool, true, false, not, ◌&&◌,
  ◌||◌, String, str_eq, ◌==◌, if◌then◌else◌,
}

pub data Ip : Type 0 where
  v4 : ℕ → Ip
  v6 : ℕ → Ip

abbrev pub quad : ℕ → ℕ → ℕ → ℕ → ℕ
quad a b c d = ((a * 256 + b) * 256 + c) * 256 + d

-- `net.IPNet`: the address and how many of its last bits are free.
pub record Block : Type 0 where
  pub base : Ip
  pub free_bits : ℕ

-- `IPNet.Contains`
abbrev pub contains : Block → Ip → Bool
contains block (v4 n) = elim (block.base) as (λ _. Bool) [
  | v4 base ↦ n / 2 ^ block.free_bits == base / 2 ^ block.free_bits
  | v6 base ↦ false
]
contains block (v6 n) = elim (block.base) as (λ _. Bool) [
  | v4 base ↦ false
  | v6 base ↦ n / 2 ^ block.free_bits == base / 2 ^ block.free_bits
]

-- `privateIPBlocks`
abbrev pub private_ip_blocks : List Block
private_ip_blocks =
    record { base = v4 (quad 10 0 0 0); free_bits = 24 }
    ∷ record { base = v4 (quad 172 16 0 0); free_bits = 20 }
    ∷ record { base = v4 (quad 192 168 0 0); free_bits = 16 }
    ∷ record { base = v4 (quad 127 0 0 0); free_bits = 24 }
    ∷ record { base = v4 (quad 169 254 0 0); free_bits = 16 }
    ∷ record { base = v4 0; free_bits = 24 }
    ∷ record { base = v4 (quad 224 0 0 0); free_bits = 28 }
    ∷ record { base = v4 (quad 240 0 0 0); free_bits = 28 }
    ∷ record { base = v6 1; free_bits = 0 }
    ∷ record { base = v6 (252 * 2 ^ 120); free_bits = 121 }
    ∷ record { base = v6 (1018 * 2 ^ 118); free_bits = 118 }
    ∷ []

abbrev pub in_blocks : List Block → Ip → Bool
in_blocks [] ip = false
in_blocks (block ∷ blocks) ip = contains block ip || in_blocks blocks ip

-- `IP.IsLoopback`, `IP.IsLinkLocalMulticast` and `IP.IsLinkLocalUnicast`
abbrev pub is_loopback : Ip → Bool
is_loopback (v4 n) = n / 2 ^ 24 == 127
is_loopback (v6 n) = n == 1

abbrev pub is_link_local_multicast : Ip → Bool
is_link_local_multicast (v4 n) = n / 256 == quad 0 224 0 0
is_link_local_multicast (v6 n) = n / 2 ^ 120 == 255 && (n / 2 ^ 112) % 16 == 2

abbrev pub is_link_local_unicast : Ip → Bool
is_link_local_unicast (v4 n) = n / 2 ^ 16 == quad 0 0 169 254
is_link_local_unicast (v6 n) = n / 2 ^ 118 == 1018

-- `isPrivateIP`
unfoldable pub is_private_ip : Ip → Bool
is_private_ip ip =
    (is_loopback ip || (is_link_local_multicast ip || is_link_local_unicast ip))
    || in_blocks private_ip_blocks ip

-- An entry of WEBHOOK_ALLOWED_ADDRS.
pub data AllowedAddr : Type 0 where
  endpoint : Ip → String → AllowedAddr
  network : Block → AllowedAddr
  address : Ip → AllowedAddr

abbrev pub ip_eq : Ip → Ip → Bool
ip_eq (v4 a) (v4 b) = a == b
ip_eq (v6 a) (v6 b) = a == b
ip_eq (v4 a) (v6 b) = false
ip_eq (v6 a) (v4 b) = false

unfoldable pub lets_through : AllowedAddr → Ip → String → Bool
lets_through (endpoint a p) ip port = ip_eq a ip && str_eq p port
lets_through (network block) ip port = contains block ip
lets_through (address a) ip port = ip_eq a ip

-- `allowedPrivateTarget`
unfoldable pub allowed_private_target : List AllowedAddr → Ip → String → Bool
allowed_private_target [] ip port = false
allowed_private_target (e ∷ es) ip port =
    lets_through e ip port || allowed_private_target es ip port

-- The parts of a URL that are read.
pub record Url : Type 0 where
  pub hostname : String
  pub port : String
  pub scheme : String

-- `urlPort`
unfoldable pub url_port : Url → String
url_port u =
    if not (str_eq u.port "") then u.port else if str_eq u.scheme "https" then "443" else "80"

-- What Go and the environment give: `allowed` is WEBHOOK_ALLOWED_ADDRS, `check_off` DISABLE_SSRF_CHECK.
pub record Net : Type 0 where
  pub parse : String → Option Url
  pub equal_fold : String → String → Bool
  pub lookup_ip : String → Option (List Ip)
  pub allowed : List AllowedAddr
  pub check_off : Bool

abbrev pub blocked_hosts : List String
blocked_hosts = "metadata.google.internal" ∷ "169.254.169.254" ∷ "metadata.azure.com" ∷ []

unfoldable pub is_blocked : Net → String → List String → Bool
is_blocked net host [] = false
is_blocked net host (h ∷ hs) = net.equal_fold host h || is_blocked net host hs

-- The test of one address, which the validation and the dialling share.
abbrev pub passes : Net → Ip → String → Bool
passes net ip port = not (is_private_ip ip && not (allowed_private_target net.allowed ip port))

unfoldable pub all_pass : Net → List Ip → String → Bool
all_pass net [] port = true
all_pass net (ip ∷ ips) port = passes net ip port && all_pass net ips port

-- `ValidateWebhookURL`: whether it returns no error.
unfoldable pub validate_webhook_url : Net → String → Bool
validate_webhook_url net text =
    if net.check_off then true else elim (net.parse text) as (λ _. Bool) [
      | none ↦ false
      | some u ↦
          not (is_blocked net u.hostname blocked_hosts)
          && elim (net.lookup_ip u.hostname) as (λ _. Bool) [
            | none ↦ false
            | some ips ↦ all_pass net ips (url_port u)
          ]
    ]

-- The `Control` of ssrfSafeDialContext: none is an address that does not parse.
unfoldable pub dial_allowed : Net → Option Ip → String → Bool
dial_allowed net none port = true
dial_allowed net (some ip) port = if net.check_off then true else passes net ip port
