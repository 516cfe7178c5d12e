-- ===== src/WsPath.antt =====
-- websockets/route.ts: the path of a route, which may have parameters, and what it matches; with
-- ensurePathFormat of websockets/common.ts. The field `subpath` of a match
-- is left out: it is made of the parts behind the last matcher, of which there are none.
pub mod Filled
use Prim.Native.Char.{Char, code}
use Prim.Native.String
use dyrectorio.Prelude.{
  Bool, List, Option, String, [], false, filter, if◌then◌else◌, leb, length, none, not, set, some,
  split, true, ℕ, ◌&&◌, ◌+++◌, ◌++◌, ◌+◌, ◌-◌, ◌==◌, ◌||◌, ◌∷◌, string_eq, nat_eq,
}
use dyrectorio.WsRoute.{WsRouteMatch}

pub data Matcher : Type 0 where
  parameter literal : String → Matcher

abbrev pub slash : Char
slash = "/"

-- The white space that `trim` removes.
abbrev pub is_space : ℕ → Bool
is_space c =
    (leb 9 c && leb c 13)
    || c == 32
    || c == 160
    || c == 5760
    || (leb 8192 c && leb c 8202)
    || c == 8232
    || c == 8233
    || c == 8239
    || c == 8287
    || c == 12288
    || c == 65279

abbrev pub ends_in_space : String → Bool
ends_in_space String.[] = false
ends_in_space (String.◌∷◌ c String.[]) = is_space (code c)
ends_in_space (String.◌∷◌ c (String.◌∷◌ d s)) = ends_in_space (String.◌∷◌ d s)

-- `trim` shortens a text that starts or ends in white space.
abbrev pub is_trimmed : String → Bool
is_trimmed String.[] = true
is_trimmed (String.◌∷◌ c s) = not (is_space (code c)) && not (ends_in_space (String.◌∷◌ c s))

abbrev pub parameter_matcher : String → Option Matcher
parameter_matcher name = if not (is_trimmed name) || name == "" then none else some (parameter name)

abbrev pub matcher_of : String → Option Matcher
matcher_of String.[] = some (literal "")
matcher_of (String.◌∷◌ c s) =
    if code c == b':' then parameter_matcher s else some (literal (String.◌∷◌ c s))

abbrev pub add_matcher : Option Matcher → Option (List Matcher) → Option (List Matcher)
add_matcher (some m) (some ms) = some (m ∷ ms)
add_matcher (some m) none = none
add_matcher none (some ms) = none
add_matcher none none = none

abbrev pub matchers_of : List String → Option (List Matcher)
matchers_of [] = some []
matchers_of (part ∷ parts) = add_matcher (matcher_of part) (matchers_of parts)

-- `path.split('/').filter(it => it.length > 0)`
unfoldable pub parts_of : String → List String
unfolding split
parts_of path = filter (λ it. not (it == "")) (split b'/' path)

-- The constructor; `none` is its exception.
unfoldable pub route_matchers : String → Option (List Matcher)
unfolding parts_of
route_matchers path = matchers_of (parts_of path)

unfoldable pub path_from_parts : List String → String
path_from_parts [] = ""
path_from_parts (part ∷ parts) = String.◌∷◌ slash (part +++ path_from_parts parts)

-- The matchers in order, until one does not match.
abbrev pub match_parts :
    List Matcher → List String → List (String × String) → Option (List (String × String))
match_parts [] parts params = some params
match_parts (m ∷ ms) [] params = none
match_parts (parameter name ∷ ms) (part ∷ parts) params =
    match_parts ms parts (set name part params)
match_parts (literal text ∷ ms) (part ∷ parts) params =
    let rest = match_parts ms parts params in if part == text then rest else none

abbrev pub match_with : String → Option (List (String × String)) → Option WsRouteMatch
match_with path none = none
match_with path (some params) = some (record { path = path; params = params })

unfoldable pub matches : List Matcher → String → Option WsRouteMatch
unfolding parts_of path_from_parts
matches ms message_type =
    let parts = parts_of message_type in
    if not (length ms == length parts)
    then none
    else match_with (path_from_parts parts) (match_parts ms parts [])

unfoldable pub ensure_path_format : Option String → Option String
ensure_path_format none = none
ensure_path_format (some String.[]) = none
ensure_path_format (some (String.◌∷◌ c s)) =
    if code c == b'/' then some (String.◌∷◌ c s) else some (String.◌∷◌ slash (String.◌∷◌ c s))
