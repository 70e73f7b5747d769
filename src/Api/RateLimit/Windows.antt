-- ===== src/Api/RateLimit/Windows.antt =====
-- The windows of one address in whatsapp-bridge/internal/api/middleware.go: how many requests were let
-- through since an instant, by the windows that are over and the count of the last one.
use whatsapp_mcp_pro.Base.{
  ℕ, ◌+◌, ◌*◌, ◌≤◌, min, ◌≡◌, ◌∙◌, subst, ◌⊎◌, inl, inr, List, [], ◌∷◌, Option, none, some, true,
  String, str_eq, eq_iff, if◌then◌else◌, arith, lookup, delete, lookup-delete, Bool-cases,
}
use whatsapp_mcp_pro.Api.RateLimit.{
  rate_limit, rate_limit_window, Limits, opens_window, take_slot, is_stale, drop_stale,
}
use whatsapp_mcp_pro.Api.RateLimit.Slots.{take_slot-opens, take_slot-counts}

-- What the maps hold of an address after `n` of its requests were let through since `start`: `k`
-- windows of it are over, and the last one, if it is there, has counted `c` requests.
pub record Open (start last n k : ℕ) (ow oc : Option ℕ) (w c : ℕ) : Type 0 where
  pub window_at : ow ≡ some w
  pub count_at : oc ≡ some c
  pub after : start + k * rate_limit_window ≤ w
  pub before : w ≤ last
  pub let_through : n ≤ k * rate_limit + min c rate_limit

pub record Shut (start last n k : ℕ) (ow : Option ℕ) : Type 0 where
  pub no_window : ow ≡ none
  pub after : start + k * rate_limit_window ≤ last
  pub let_through : n ≤ k * rate_limit

abbrev pub Bounded : ℕ → ℕ → ℕ → Option ℕ → Option ℕ → Type 0
Bounded start last n ow oc =
    ((k w c : ℕ) × Open start last n k ow oc w c) ⊎ ((k : ℕ) × Shut start last n k ow)

abbrev pub BoundedAt : String → ℕ → ℕ → ℕ → Limits → Type 0
BoundedAt ip start last n s = Bounded start last n (lookup ip s.windows) (lookup ip s.counts)

module _ (ip : String) (start : ℕ) where
  pub BoundedAt-views :
      (last n : ℕ) (s s' : Limits)
      → lookup ip s'.windows ≡ lookup ip s.windows
      → lookup ip s'.counts ≡ lookup ip s.counts
      → BoundedAt ip start last n s
      → BoundedAt ip start last n s'
  BoundedAt-views last n s s' ew ec (inl (k, w, c, b)) = inl (
    k,
    w,
    c,
    record {
      window_at = ew ∙ b.window_at;
      count_at = ec ∙ b.count_at;
      after = b.after;
      before = b.before;
      let_through = b.let_through;
    },
  )
  BoundedAt-views last n s s' ew ec (inr (k, b)) =
      inr (k, record { no_window = ew ∙ b.no_window; after = b.after; let_through = b.let_through })

  pub BoundedAt-later :
      (last now n : ℕ) (s : Limits)
      → last ≤ now
      → BoundedAt ip start last n s
      → BoundedAt ip start now n s
  BoundedAt-later last now n s le (inl (k, w, c, b)) = inl (
    k,
    w,
    c,
    record {
      window_at = b.window_at;
      count_at = b.count_at;
      after = b.after;
      before = omega (arith, b.before, le);
      let_through = b.let_through;
    },
  )
  BoundedAt-later last now n s le (inr (k, b)) = inr (
    k,
    record {
      no_window = b.no_window;
      after = omega (arith, b.after, le);
      let_through = b.let_through;
    },
  )

  -- A request of the address that opens a window.
  BoundedAt-opens :
      (now k n : ℕ) (s : Limits)
      → start + k * rate_limit_window ≤ now
      → n ≤ k * rate_limit
      → opens_window now (lookup ip s.windows) ≡ true
      → BoundedAt ip start now (n + 1) (take_slot ip now s).0
  BoundedAt-opens now k n s a t o =
      let (ew, ec) = take_slot-opens ip now s o in
      inl (
        k,
        now,
        1,
        record {
          window_at = ew;
          count_at = ec;
          after = a;
          before = omega arith;
          let_through = ground (arith, t);
        },
      )

  pub BoundedAt-fewer :
      (last n m : ℕ) (s : Limits)
      → m ≤ n
      → BoundedAt ip start last n s
      → BoundedAt ip start last m s
  BoundedAt-fewer last n m s le (inl (k, w, c, b)) = inl (
    k,
    w,
    c,
    record {
      window_at = b.window_at;
      count_at = b.count_at;
      after = b.after;
      before = b.before;
      let_through = omega (arith, b.let_through, le);
    },
  )
  BoundedAt-fewer last n m s le (inr (k, b)) = inr (
    k,
    record {
      no_window = b.no_window;
      after = b.after;
      let_through = omega (arith, b.let_through, le);
    },
  )

  opens-none : (now : ℕ) {v : Option ℕ} → v ≡ none → opens_window now v ≡ true
  unfolding opens_window
  opens-none now e = ground (arith, e)

  opens-after :
      (now w k : ℕ)
      → opens_window now (some w) ≡ true
      → start + k * rate_limit_window ≤ w
      → start + (k + 1) * rate_limit_window ≤ now
  unfolding opens_window
  opens-after now w k o a = ground (arith, o, a)

  -- A window that is over is closed.
  stale-BoundedAt :
      (now n : ℕ) (s s' : Limits)
      → lookup ip s'.windows ≡ none
      → is_stale now (lookup ip s.windows) ≡ true
      → BoundedAt ip start now n s
      → BoundedAt ip start now n s'
  stale-BoundedAt now n s s' gone stale (inl (k, w, c, b)) =
      let over : is_stale now (some w) ≡ true =
        subst (λ v. is_stale now v ≡ true) b.window_at stale in
      inr (
        k + 1,
        record {
          no_window = gone;
          after = ground (arith, over, b.after);
          let_through = ground (arith, b.let_through);
        },
      )
  stale-BoundedAt now n s s' gone stale (inr (k, b)) =
      inr (k, record { no_window = gone; after = b.after; let_through = b.let_through })

  -- A request of the address, whether it is let through or not.
  pub take_slot-BoundedAt :
      (last now n m : ℕ) (s : Limits)
      → last ≤ now
      → m ≤ n + (if (take_slot ip now s).1 then 1 else 0)
      → BoundedAt ip start last n s
      → BoundedAt ip start now m (take_slot ip now s).0
  take_slot-BoundedAt last now n m s le lm (inl (k, w, c, b)) =
      elim (Bool-cases (opens_window now (lookup ip s.windows))) [
        | inl o ↦
            let old : opens_window now (some w) ≡ true =
              subst (λ v. opens_window now v ≡ true) b.window_at o in
            BoundedAt-fewer now (n + 1) m (take_slot ip now s).0 (ground (arith, lm)) (
              BoundedAt-opens now (k + 1) n s (opens-after now w k old b.after)
                (ground (arith, b.let_through)) o)
        | inr o ↦
            let (ew, ec, el) = take_slot-counts ip now c s o b.count_at in
            inl (
              k,
              w,
              c + 1,
              record {
                window_at = ew ∙ b.window_at;
                count_at = ec;
                after = b.after;
                before = omega (arith, b.before, le);
                let_through = ground (arith, el, lm, b.let_through);
              },
            )
      ]
  take_slot-BoundedAt last now n m s le lm (inr (k, b)) =
      BoundedAt-fewer now (n + 1) m (take_slot ip now s).0 (ground (arith, lm)) (
        BoundedAt-opens now k n s (omega (arith, b.after, le)) b.let_through
          (opens-none now b.no_window))

  drop_one-BoundedAt :
      (now n : ℕ) (j : String) (s : Limits)
      → BoundedAt ip start now n s
      → BoundedAt ip start now n (
          if is_stale now (lookup j s.windows)
          then record { windows = delete j s.windows; counts = delete j s.counts }
          else s)
  drop_one-BoundedAt now n j s k =
      let dropped : Limits = record { windows = delete j s.windows; counts = delete j s.counts } in
      elim (Bool-cases (is_stale now (lookup j s.windows))) [
        | inr kept ↦ rw (kept) k
        | inl stale ↦ rw (stale) (elim (Bool-cases (str_eq j ip)) [
          | inr other ↦
              BoundedAt-views now n s dropped (ground (arith, other, lookup-delete j ip s.windows))
                (ground (arith, other, lookup-delete j ip s.counts)) k
          | inl own ↦
              let gone : lookup ip dropped.windows ≡ none =
                ground (arith, own, lookup-delete j ip s.windows) in
              stale-BoundedAt now n s dropped gone
                (subst (λ i. is_stale now (lookup i s.windows) ≡ true)
                  (ground (arith, own, eq_iff j ip)) stale)
                k
        ])
      ]

  pub drop_stale-BoundedAt :
      (now n : ℕ) (ips : List String) (s : Limits)
      → BoundedAt ip start now n s
      → BoundedAt ip start now n (drop_stale now ips s)
  unfolding drop_stale
  drop_stale-BoundedAt now n [] s k = k
  drop_stale-BoundedAt now n (j ∷ ips) s k =
      drop_stale-BoundedAt now n ips _ (drop_one-BoundedAt now n j s k)
