-- ===== src/EnvironmentRules/Parts.antt =====
-- The parts of a text, for the labels of domain/image.ts.
use dyrectorio.Prelude.{
  nat_eq, refl, String, split, List, ◌∷◌, any, if◌then◌else◌, ◌≡◌, [], includes_char, ◌==◌, ◌+++◌,
  false, Bool-cases, inl, split_whole, inr, arith, split-append, ◌∙◌, ap,
}
use Prim.Native.Char.{Char, code}

abbrev pub comma : Char
comma = ","

abbrev pub colon : Char
colon = ":"

-- The text up to the first colon.
abbrev pub before_colon : String → String
before_colon String.[] = ""
before_colon (String.◌∷◌ c s) =
    let rest = before_colon s in if code c == b':' then "" else String.◌∷◌ c rest

pub split-before_colon :
    (s : String) → (parts : List String) × (split b':' s ≡ before_colon s ∷ parts)
unfolding split
split-before_colon String.[] = ([], refl)
split-before_colon (String.◌∷◌ c s) = elim (Bool-cases (code c == b':')) [
  | inl e ↦ (split b':' s, rw e refl)
  | inr e ↦ let (parts, same) = split-before_colon s in (parts, rw (e, same) refl)
]

-- The parameters of a label, joined by commas.
abbrev pub join : List String → String
join [] = ""
join (p ∷ []) = p
join (p ∷ q ∷ ps) = p +++ String.◌∷◌ comma (join (q ∷ ps))

pub split-join :
    (p : String) (ps : List String)
    → any (includes_char b',') (p ∷ ps) ≡ false
    → split b',' (join (p ∷ ps)) ≡ p ∷ ps
split-join p [] free = split_whole b',' p (ground (arith, free))
split-join p (q ∷ ps) free =
    split-append b',' comma p (join (q ∷ ps)) (ground (arith, free)) refl
    ∙ ap (λ l. p ∷ l) (split-join q ps (ground (arith, free)))
