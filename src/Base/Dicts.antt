-- ===== src/Base/Dicts.antt =====
-- A Go map with string keys, as an association list. A key may stand once or more often: a lookup
-- reads the first entry, and a delete drops them all.
use Prim.Native.String.{String}
use text.Mathlib.Text.{◌==◌ as str_eq}
use text.Mathlib.TextEquality.{eq_iff}
use mathlib.Core.Path.{◌≡◌, refl}
use mathlib.Core.List.{List, [], ◌∷◌}
use mathlib.Core.Option.{Option, none, some}
use native.Mathlib.Omega.{arith}
use whatsapp_mcp_pro.Base.Tests.{if◌then◌else◌}

abbrev pub Dict {ℓ} : Type ℓ → Type ℓ
Dict V = List (String × V)

module _ {ℓ} {Value : Type ℓ} where
  unfoldable pub lookup : String → Dict Value → Option Value
  lookup wanted [] = none
  lookup wanted ((key, old) ∷ rest) = if str_eq key wanted then some old else lookup wanted rest

  unfoldable pub delete : String → Dict Value → Dict Value
  delete gone [] = []
  delete gone ((key, old) ∷ rest) =
      if str_eq key gone then delete gone rest else (key, old) ∷ delete gone rest

  unfoldable pub insert : String → Value → Dict Value → Dict Value
  insert set new [] = (set, new) ∷ []
  insert set new ((key, old) ∷ rest) =
      if str_eq key set then (set, new) ∷ rest else (key, old) ∷ insert set new rest

  pub lookup-delete :
      (gone wanted : String) (d : Dict Value)
      → lookup wanted (delete gone d) ≡ (if str_eq gone wanted then none else lookup wanted d)
  unfolding lookup delete
  lookup-delete gone wanted [] = ground arith
  lookup-delete gone wanted ((key, old) ∷ rest) =
      let ih = lookup-delete gone wanted rest in
      ground (arith, ih, eq_iff gone wanted, eq_iff key gone, eq_iff key wanted)

  pub lookup-insert :
      (set wanted : String) (new : Value) (d : Dict Value)
      → lookup wanted (insert set new d) ≡ (if str_eq set wanted then some new else lookup wanted d)
  unfolding lookup insert
  lookup-insert set wanted new [] = refl
  lookup-insert set wanted new ((key, old) ∷ rest) =
      let ih = lookup-insert set wanted new rest in
      ground (arith, ih, eq_iff set wanted, eq_iff key set, eq_iff key wanted)
