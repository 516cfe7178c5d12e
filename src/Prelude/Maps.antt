-- ===== src/Prelude/Maps.antt =====
-- `Map` and `Record` of the source with string keys: pairs, in the order of the insertion of the keys.
use Prim.Native.String.{String}
use mathlib.Core.Path.{◌≡◌, refl}
use mathlib.Core.Bool.{Bool}
use mathlib.Core.Option.{Option, none, some}
use mathlib.Core.List.{List, [], ◌∷◌}
use native.Mathlib.Omega.{arith}
use dyrectorio.Prelude.Tests.{if◌then◌else◌}
use dyrectorio.Prelude.Lists.{filter}
use dyrectorio.Prelude.Equality.{◌==◌, string_eq}

module _ {ℓ} {V : Type ℓ} where
  abbrev pub lookup : String → List (String × V) → Option V
  lookup k [] = none
  lookup k ((j, v) ∷ m) = if j == k then some v else lookup k m

  -- An assignment: the key keeps its place, or gets the last one.
  abbrev pub set : String → V → List (String × V) → List (String × V)
  set k v [] = (k, v) ∷ []
  set k v ((j, w) ∷ m) = let rest = set k v m in if j == k then (k, v) ∷ m else (j, w) ∷ rest

  pub lookup-set :
      (k j : String) (v : V) (m : List (String × V))
      → lookup j (set k v m) ≡ (if k == j then some v else lookup j m)
  lookup-set k j v [] = refl
  lookup-set k j v ((i, w) ∷ m) = ground (
    arith,
    lookup-set k j v m,
    string_eq.beq_iff i k,
    string_eq.beq_iff i j,
    string_eq.beq_iff k j,
  )

  pub lookup-filter :
      (keep : String → Bool) (j : String) (m : List (String × V))
      → lookup j (filter (λ e. keep e.0) m) ≡ (if keep j then lookup j m else none)
  lookup-filter keep j [] = ground arith
  lookup-filter keep j ((i, w) ∷ m) = ground (arith, lookup-filter keep j m, string_eq.beq_iff i j)
