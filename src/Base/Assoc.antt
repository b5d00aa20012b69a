-- ===== src/Base/Assoc.antt =====
-- A map with text keys, as an association list: Rust's `HashMap<String, V>` where the code does not
-- iterate over it.
use Prim.Native.String.{String}
use mathlib.Core.Path.{◌≡◌, refl}
use mathlib.Core.Option.{Option, none, some}
use mathlib.Core.List.{List, [], ◌∷◌}
use native.Mathlib.Omega.{arith}
use text.Mathlib.Text.{◌==◌ as str_eq}
use text.Mathlib.TextEquality.{eq_iff}
use surreal_dbservice.Base.Tests.{if◌then◌else◌}

abbrev pub Assoc {ℓ} : Type ℓ → Type ℓ
Assoc V = List (String × V)

module _ {ℓ} {V : Type ℓ} where
  unfoldable pub lookup : String → Assoc V → Option V
  lookup k [] = none
  lookup k ((j, v) ∷ m) = if str_eq j k then some v else lookup k m

  unfoldable pub insert : String → V → Assoc V → Assoc V
  insert k v [] = (k, v) ∷ []
  insert k v ((j, w) ∷ m) = if str_eq j k then (k, v) ∷ m else (j, w) ∷ insert k v m

  -- After an insertion a lookup finds the new value under its key, and elsewhere what it found before.
  pub lookup-insert :
      (key name : String) (val : V) (map : Assoc V)
      → lookup name (insert key val map) ≡ (if str_eq key name then some val else lookup name map)
  unfolding insert lookup
  lookup-insert key name val [] = refl
  lookup-insert key name val ((head, w) ∷ rest) =
      ground
        (arith, eq_iff head key, eq_iff head name, eq_iff key name, lookup-insert key name val rest)
