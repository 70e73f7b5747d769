-- ===== src/Api/RateLimit/Slots.antt =====
-- What the locked part of RateLimitMiddleware does to the maps, in whatsapp-bridge/internal/api/
-- middleware.go: for the address of the request, and for the others.
use whatsapp_mcp_pro.Base.{
  ℕ, ◌+◌, ◌≡◌, inl, inr, some, true, false, String, str_eq, eq_iff, leb, arith, value_or, lookup,
  insert, lookup-insert, Bool-cases,
}
use whatsapp_mcp_pro.Api.RateLimit.{rate_limit, Limits, opens_window, take_slot}

pub take_slot-opens :
    (ip : String) (now : ℕ) (s : Limits)
    → opens_window now (lookup ip s.windows) ≡ true
    → (lookup ip (take_slot ip now s).0.windows ≡ some now)
      × (lookup ip (take_slot ip now s).0.counts ≡ some 1)
unfolding take_slot
take_slot-opens ip now s o =
    let same = eq_iff ip ip in
    let zeroed = lookup-insert ip ip 0 s.counts in
    (
      ground (arith, o, same, lookup-insert ip ip now s.windows),
      ground (
        arith,
        o,
        same,
        zeroed,
        lookup-insert ip ip (value_or 0 (lookup ip (insert ip 0 s.counts)) + 1)
            (insert ip 0 s.counts),
      ),
    )

pub take_slot-counts :
    (ip : String) (now c : ℕ) (s : Limits)
    → opens_window now (lookup ip s.windows) ≡ false
    → lookup ip s.counts ≡ some c
    → (lookup ip (take_slot ip now s).0.windows ≡ lookup ip s.windows)
      × (lookup ip (take_slot ip now s).0.counts ≡ some (c + 1))
      × ((take_slot ip now s).1 ≡ leb (c + 1) rate_limit)
unfolding take_slot
take_slot-counts ip now c s o e = (
  ground (arith, o),
  ground (
    arith,
    o,
    e,
    eq_iff ip ip,
    lookup-insert ip ip (value_or 0 (lookup ip s.counts) + 1) s.counts,
  ),
  ground (arith, o, e),
)

pub take_slot-other :
    (ip j : String) (now : ℕ) (s : Limits)
    → str_eq j ip ≡ false
    → (lookup ip (take_slot j now s).0.windows ≡ lookup ip s.windows)
      × (lookup ip (take_slot j now s).0.counts ≡ lookup ip s.counts)
unfolding take_slot
take_slot-other ip j now s o = (
  ground (arith, o, lookup-insert j ip now s.windows),
  elim (Bool-cases (opens_window now (lookup j s.windows))) [
    | inl opens ↦ rw (opens) (
        ground (
          arith,
          o,
          lookup-insert j ip 0 s.counts,
          lookup-insert j ip (value_or 0 (lookup j (insert j 0 s.counts)) + 1)
              (insert j 0 s.counts),
        ))
    | inr counts ↦
        rw (counts)
          (ground (arith, o, lookup-insert j ip (value_or 0 (lookup j s.counts) + 1) s.counts))
  ],
)
