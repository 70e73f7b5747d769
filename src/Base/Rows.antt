-- ===== src/Base/Rows.antt =====
-- SQL tables as lists of rows: the row that a WHERE clause picks, and an UPDATE of all that it picks.
use Prim.Native.String.{String}
use text.Mathlib.Text.{◌==◌ as str_eq}
use mathlib.Core.Path.{◌≡◌, refl}
use mathlib.Core.List.{List, [], ◌∷◌, ◌++◌}
use mathlib.Core.Bool.{Bool, true, false, ◌||◌}
use mathlib.Core.Option.{Option, none, some}
use native.Mathlib.Omega.{arith}
use whatsapp_mcp_pro.Base.Tests.{if◌then◌else◌, Bool-cases}
use mathlib.Core.Logic.{inl, inr}

unfoldable pub elem : String → List String → Bool
elem x [] = false
elem x (y ∷ ys) = str_eq y x || elem x ys

module _ {ℓ} {A : Type ℓ} where
  -- The first row that a test accepts.
  unfoldable pub find : (A → Bool) → List A → Option A
  find p [] = none
  find p (r ∷ rs) = if p r then some r else find p rs

  unfoldable pub update : (A → Bool) → (A → A) → List A → List A
  update p f [] = []
  update p f (r ∷ rs) = (if p r then f r else r) ∷ update p f rs

  -- What a change keeps of a test.
  abbrev pub Keeps : (A → Bool) → (A → A) → Type ℓ
  Keeps p f = (r : A) → p (f r) ≡ p r

  pub find-update :
      (p : A → Bool) (f : A → A) (rs : List A) (r : A)
      → Keeps p f
      → find p rs ≡ some r
      → find p (update p f rs) ≡ some (f r)
  unfolding find update
  find-update p f [] r keep e = cc
  find-update p f (q ∷ rs) r keep e = ground (arith, keep q, find-update p f rs r keep)

  pub find-update-none :
      (p q : A → Bool) (f : A → A) (rs : List A)
      → Keeps p f
      → find p rs ≡ none
      → find p (update q f rs) ≡ none
  unfolding find update
  find-update-none p q f [] keep e = refl
  find-update-none p q f (r ∷ rs) keep e = ground (arith, keep r, find-update-none p q f rs keep)

  -- A row that the change leaves alone.
  pub find-update_fixed :
      (p q : A → Bool) (f : A → A) (rs : List A) (r : A)
      → Keeps p f
      → (if q r then f r else r) ≡ r
      → find p rs ≡ some r
      → find p (update q f rs) ≡ some r
  unfolding find update
  find-update_fixed p q f [] r keep same e = cc
  find-update_fixed p q f (s ∷ rs) r keep same e =
      ground (arith, keep s, find-update_fixed p q f rs r keep same)

  pub find-append :
      (p : A → Bool) (rs qs : List A) (r : A) → find p rs ≡ some r → find p (rs ++ qs) ≡ some r
  unfolding find
  find-append p [] qs r e = cc
  find-append p (q ∷ rs) qs r e = ground (arith, find-append p rs qs r)

  pub find-append_none :
      (p : A → Bool) (rs qs : List A) → find p rs ≡ none → find p (rs ++ qs) ≡ find p qs
  unfolding find
  find-append_none p [] qs e = refl
  find-append_none p (q ∷ rs) qs e = ground (arith, find-append_none p rs qs)

  pub find-passes : (p : A → Bool) (rs : List A) (r : A) → find p rs ≡ some r → p r ≡ true
  unfolding find
  find-passes p [] r e = cc
  find-passes p (q ∷ rs) r e = ground (arith, e, find-passes p rs r)

  -- Two updates of the same rows are one.
  pub update-update :
      (p : A → Bool) (f g : A → A) (rs : List A)
      → Keeps p f
      → update p g (update p f rs) ≡ update p (λ r. g (f r)) rs
  unfolding update
  update-update p f g [] keep = refl
  update-update p f g (r ∷ rs) keep = ground (arith, keep r, update-update p f g rs keep)

  pub update_cong :
      (p : A → Bool) (f g : A → A) (rs : List A)
      → ((r : A) → f r ≡ g r)
      → update p f rs ≡ update p g rs
  unfolding update
  update_cong p f g [] h = refl
  update_cong p f g (r ∷ rs) h = ground (arith, h r, update_cong p f g rs h)

  -- Whatever row is picked, an update of others that keeps the test changes it alone.
  pub find-update_any :
      (p q : A → Bool) (f : A → A) (rs : List A) (r : A)
      → Keeps p f
      → find p rs ≡ some r
      → find p (update q f rs) ≡ some (if q r then f r else r)
  unfolding find update
  find-update_any p q f [] r keep e = cc
  find-update_any p q f (s ∷ rs) r keep e = elim (Bool-cases (p s)) [
    | inl here ↦ ground (arith, here, e, keep s)
    | inr there ↦ ground (arith, there, e, keep s, find-update_any p q f rs r keep)
  ]
