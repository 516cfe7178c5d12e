-- ===== src/Prelude/Texts.antt =====
-- Texts as sequences of characters.
use Prim.Native.Char.{Char, code}
use Prim.Native.String.{String}
use Prim.Native.Nat.{ℕ}
use mathlib.Core.Path.{◌≡◌, refl}
use mathlib.Core.Bool.{Bool, true, false, ◌||◌}
use mathlib.Core.List.{List, [], ◌∷◌}
use native.Mathlib.Omega.{arith}
use dyrectorio.Prelude.Tests.{if◌then◌else◌}
use dyrectorio.Prelude.Equality.{◌==◌, nat_eq}

-- `split` by one character, of which there is always a first part.
abbrev pub add_first : Char → List String → List String
add_first c [] = String.◌∷◌ c String.[] ∷ []
add_first c (part ∷ parts) = String.◌∷◌ c part ∷ parts

unfoldable pub split : ℕ → String → List String
split separator String.[] = "" ∷ []
split separator (String.◌∷◌ c rest) =
    let parts = split separator rest in
    if code c == separator then "" ∷ parts else add_first c parts

unfoldable pub includes_char : ℕ → String → Bool
includes_char x String.[] = false
includes_char x (String.◌∷◌ c rest) = code c == x || includes_char x rest

-- `+` on texts.
infix 65 ◌+++◌
abbrev pub ◌+++◌ : String → String → String
String.[] +++ t = t
(String.◌∷◌ c s) +++ t = String.◌∷◌ c (s +++ t)

pub split-append :
    (x : ℕ) (c : Char) (s rest : String)
    → includes_char x s ≡ false
    → (code c == x) ≡ true
    → split x (s +++ String.◌∷◌ c rest) ≡ s ∷ split x rest
unfolding split includes_char
split-append x c String.[] rest free is_x = rw is_x refl
split-append x c (String.◌∷◌ d s) rest free is_x = ground (arith, free, split-append x c s rest)

pub split_whole : (x : ℕ) (s : String) → includes_char x s ≡ false → split x s ≡ s ∷ []
unfolding split includes_char
split_whole x String.[] free = refl
split_whole x (String.◌∷◌ c s) free = ground (arith, free, split_whole x s)
