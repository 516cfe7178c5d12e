-- ===== src/WsPath/Filled.antt =====
-- A path that is made from the path of a route is matched by the route (websockets/route.ts).
use dyrectorio.Prelude.{
  nat_eq, string_eq, refl, ap, sym, ◌∙◌, beq_refl, split_whole, split-append, suc, set, Bool, List,
  String, [], all, ap, arith, filter, includes_char, length, not, refl, set, some, split, suc, true,
  ℕ, ◌&&◌, ◌+++◌, ◌==◌, ◌∙◌, ◌∷◌, ◌≡◌, string_eq, nat_eq, false,
}
use dyrectorio.WsPath.{
  slash, Matcher, parameter, literal, parts_of, path_from_parts, match_parts, matches,
}

-- A part of a path: it is not empty and has no slash.
abbrev pub is_part : String → Bool
is_part s = not (s == "") && not (includes_char b'/' s)

append-empty : (s : String) → s +++ "" ≡ s
append-empty String.[] = refl
append-empty (String.◌∷◌ c s) = ap (String.◌∷◌ c) (append-empty s)

part_lem : (p : String) → is_part p ≡ true → includes_char b'/' p ≡ false
part_lem p h = ground (arith, h)

split-path_from_parts :
    (p : String) (ps : List String)
    → all is_part (p ∷ ps) ≡ true
    → split b'/' (p +++ path_from_parts ps) ≡ p ∷ ps
unfolding path_from_parts
split-path_from_parts p [] h =
    rw (append-empty p) (split_whole b'/' p (part_lem p (ground (arith, h))))
split-path_from_parts p (q ∷ ps) h =
    split-append b'/' slash p (q +++ path_from_parts ps) (part_lem p (ground (arith, h))) refl
    ∙ ap (λ l. p ∷ l) (split-path_from_parts q ps (ground (arith, h)))

all_parts : (ps : List String) → all is_part ps ≡ true → filter (λ it. not (it == "")) ps ≡ ps
all_parts [] h = refl
all_parts (p ∷ ps) h = ground (arith, h, all_parts ps)

parts_of-path_from_parts :
    (ps : List String) → all is_part ps ≡ true → parts_of (path_from_parts ps) ≡ ps
unfolding parts_of path_from_parts split
parts_of-path_from_parts [] h = refl
parts_of-path_from_parts (p ∷ ps) h =
    ap (filter (λ it. not (it == ""))) (split-path_from_parts p ps h) ∙ all_parts (p ∷ ps) h

-- The parts of a route's path with values in the place of its parameters.
abbrev pub filled : List Matcher → List String → List String
filled [] values = []
filled (literal text ∷ ms) values = text ∷ filled ms values
filled (parameter name ∷ ms) [] = []
filled (parameter name ∷ ms) (value ∷ values) = value ∷ filled ms values

-- The parameters with their values; of two with one name, the last counts.
abbrev pub bound : List Matcher → List String → List (String × String) → List (String × String)
bound [] values params = params
bound (literal text ∷ ms) values params = bound ms values params
bound (parameter name ∷ ms) [] params = params
bound (parameter name ∷ ms) (value ∷ values) params = bound ms values (set name value params)

abbrev pub parameters : List Matcher → ℕ
parameters [] = 0
parameters (literal text ∷ ms) = parameters ms
parameters (parameter name ∷ ms) = suc (parameters ms)

match_parts-filled :
    (ms : List Matcher) (values : List String) (params : List (String × String))
    → parameters ms ≡ length values
    → (match_parts ms (filled ms values) params ≡ some (bound ms values params))
      × (length ms ≡ length (filled ms values))
match_parts-filled [] values params h = (refl, refl)
match_parts-filled (literal text ∷ ms) values params h =
    let (same, long) = match_parts-filled ms values params h in
    (rw (beq_refl text) same, ap suc long)
match_parts-filled (parameter name ∷ ms) [] params h = absurd (omega (arith, h))
match_parts-filled (parameter name ∷ ms) (value ∷ values) params h =
    let (same, long) = match_parts-filled ms values (set name value params) (omega (arith, h)) in
    (same, ap suc long)

-- A path that has values in the place of the parameters of a route's path is matched by the route,
-- with that path, and with those values as the values of the parameters. The values, and the other
-- parts of the route's path, are not empty and have no slash, and there are as many values as
-- parameters.
pub matches-filled :
    (ms : List Matcher) (values : List String)
    → all is_part (filled ms values) ≡ true
    → parameters ms ≡ length values
    → matches ms (path_from_parts (filled ms values))
      ≡ some (record { path = path_from_parts (filled ms values); params = bound ms values [] })
unfolding matches
matches-filled ms values h count =
    let (same, long) = match_parts-filled ms values [] count in
    rw (parts_of-path_from_parts (filled ms values) h, sym long, beq_refl (length ms), same) refl
