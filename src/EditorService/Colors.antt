-- ===== src/EditorService/Colors.antt =====
-- The colours of the editors of app/editor/editor.service.ts.
use dyrectorio.Prelude.{
  string_eq, any-append, lookup-set, lookup-filter, filter, [], ◌∷◌, ◌++◌, ◌==◌, ◌||◌, Bool,
  Bool-cases, List, Option, String, contains, false, inl, inr, lookup, none, not, refl, some, suc,
  true, zero, ℕ, ◌&&◌, ◌+◌, ◌≡◌, arith,
}
use dyrectorio.EditorService.{EditorColorProvider, find_color, take_color, free_color}

contains-snoc :
    (xs : List String) (c d : String) → contains (xs ++ c ∷ []) d ≡ (contains xs d || c == d)
contains-snoc xs c d = ground (arith, any-append (λ x. x == d) xs (c ∷ []))

contains-filter :
    (xs : List String) (c d : String)
    → contains (filter (λ x. not (x == c)) xs) d ≡ (contains xs d && not (d == c))
contains-filter [] c d = refl
contains-filter (x ∷ xs) c d =
    ground (arith, contains-filter xs c d, string_eq.beq_iff x d, string_eq.beq_iff x c)

-- A colour that is found is not in use.
pub find_color-unused :
    (left attempt : ℕ) (candidate : ℕ → String × Bool) (in_use : List String) (color : String)
    → find_color left attempt candidate in_use ≡ some color
    → contains in_use color ≡ false
unfolding find_color
find_color-unused zero attempt candidate in_use color h = cc
find_color-unused (suc left) attempt candidate in_use color h =
    ground (arith, find_color-unused left (attempt + 1) candidate in_use color)

-- Colours that are taken are in use, and no two users have one colour.
abbrev pub IsDistinct : EditorColorProvider → Type 0
IsDistinct p =
    ((i c : String) → lookup i p.colors ≡ some c → contains p.in_use c ≡ true)
    × ((i j c : String) → lookup i p.colors ≡ some c → lookup j p.colors ≡ some c → i ≡ j)

pub take_color-IsDistinct :
    (found : Option String) (id : String) (p : EditorColorProvider)
    → ((c : String) → found ≡ some c → contains p.in_use c ≡ false)
    → IsDistinct p
    → IsDistinct (take_color found id p).0
take_color-IsDistinct none id p unused h = h
take_color-IsDistinct (some color) id p unused h = (
  λ i c e. ground (
    arith,
    lookup-set id i color p.colors,
    contains-snoc p.in_use color c,
    h.0 i c,
    string_eq.beq_iff color c,
  ),
  λ i j c e e'. ground (
    arith,
    lookup-set id i color p.colors,
    lookup-set id j color p.colors,
    unused color refl,
    h.0 i c,
    h.0 j c,
    h.1 i j c,
    string_eq.beq_iff id i,
    string_eq.beq_iff id j,
  ),
)

pub free_color-IsDistinct :
    (found : Option String) (id : String) (p : EditorColorProvider)
    → lookup id p.colors ≡ found
    → IsDistinct p
    → IsDistinct (free_color found id p)
free_color-IsDistinct none id p e h = h
free_color-IsDistinct (some color) id p e h = elim (Bool-cases (color == "")) [
  | inl t ↦ rw t h
  | inr t ↦ rw t (
    λ i c e1. ground (
      arith,
      lookup-filter (λ k. not (k == id)) i p.colors,
      contains-filter p.in_use color c,
      h.0 i c,
      h.1 id i c,
      string_eq.beq_iff i id,
      string_eq.beq_iff c color,
    ),
    λ i j c e1 e2. ground (
      arith,
      lookup-filter (λ k. not (k == id)) i p.colors,
      lookup-filter (λ k. not (k == id)) j p.colors,
      h.1 i j c,
    ),
  )
]
