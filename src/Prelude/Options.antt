-- ===== src/Prelude/Options.antt =====
-- `null` and `undefined` are `none`: the operators of the source on values that may be missing.
use mathlib.Core.Path.{◌≡◌, refl}
use mathlib.Core.Bool.{Bool, true, false}
use mathlib.Core.Option.{Option, none, some}
use mathlib.Core.List.{List, [], ◌∷◌}
use native.Mathlib.Omega.{arith}
use dyrectorio.Prelude.Lists.{find, any}

module _ {ℓ} {A : Type ℓ} where
  -- `strong ?? weak`
  infixr 30 ◌or_else◌
  abbrev pub ◌or_else◌ : Option A → Option A → Option A
  some a or_else weak = some a
  none or_else weak = weak

  -- `weak ?? fallback`, where the fallback is a value
  abbrev pub get_or : Option A → A → A
  get_or (some a) d = a
  get_or none d = d

  abbrev pub is_some : Option A → Bool
  is_some (some a) = true
  is_some none = false

  pub or_else_assoc : (a b c : Option A) → ((a or_else b) or_else c) ≡ (a or_else (b or_else c))
  or_else_assoc (some a) b c = refl
  or_else_assoc none b c = refl

  pub or_else-none : (a : Option A) → (a or_else none) ≡ a
  or_else-none (some a) = refl
  or_else-none none = refl

  -- The items of an array that may be missing.
  abbrev pub items : Option (List A) → List A
  items none = []
  items (some xs) = xs

  -- A search in one list and then in another: the first hit counts.
  pub find-or_else :
      (p : A → Bool) (xs : List A) (o : Option A)
      → (any p xs ≡ true → find p xs ≡ (find p xs or_else o))
        × (any p xs ≡ false → (find p xs or_else o) ≡ o)
  find-or_else p [] o = ground arith
  find-or_else p (x ∷ xs) o = ground (arith, find-or_else p xs o)
