-- ===== src/Base/Instants.antt =====
-- Instants that may be unset.
use Prim.Native.Nat.{ℕ, ◌≤◌}
use mathlib.Core.Option.{Option, none, some}
use native.Mathlib.Omega.{arith}

-- An instant that is set is not moved back.
abbrev pub NotBefore : Option ℕ → Option ℕ → Type 0
NotBefore none b = Unit
NotBefore (some t) none = ⊥
NotBefore (some t) (some u) = t ≤ u

pub NotBefore-refl : (t : Option ℕ) → NotBefore t t
NotBefore-refl none = tt
NotBefore-refl (some t) = omega arith

pub NotBefore-trans : (a b c : Option ℕ) → NotBefore a b → NotBefore b c → NotBefore a c
NotBefore-trans none b c h k = tt
NotBefore-trans (some a) none c h k = absurd h
NotBefore-trans (some a) (some b) none h k = absurd k
NotBefore-trans (some a) (some b) (some c) h k = omega arith
