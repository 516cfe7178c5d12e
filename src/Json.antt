-- ===== src/Json.antt =====
-- The text of JSON.stringify, as the sequence of its tokens. A string is one token, its quotes
-- included, so no string reads as punctuation, and two texts are equal when their tokens are.
use dyrectorio.Prelude.{
  list_eq, if◌then◌else◌, is_some, ◌or_else◌, or_else-none, refl, ap, ◌∙◌, String, Bool, true,
  false, Eq, ◌==◌, string_eq, bool_eq, int_eq, ℕ, ℤ, pos, ◌≡◌, ◌↔◌, List, [], ◌∷◌, ◌++◌, Option,
  none, some, arith,
}

-- `punct` is one of `{ } [ ] :` or `null`. The commas follow from the other tokens and are left
-- out. A number stands for its decimal print.
pub data Token : Type 0 where
  punct str : String → Token
  num : ℤ → Token
  bool : Bool → Token

abbrev pub token_beq : Token → Token → Bool
token_beq (punct a) (punct b) = a == b
token_beq (punct a) (str b) = false
token_beq (punct a) (num b) = false
token_beq (punct a) (bool b) = false
token_beq (str a) (punct b) = false
token_beq (str a) (str b) = a == b
token_beq (str a) (num b) = false
token_beq (str a) (bool b) = false
token_beq (num a) (punct b) = false
token_beq (num a) (str b) = false
token_beq (num a) (num b) = a == b
token_beq (num a) (bool b) = false
token_beq (bool a) (punct b) = false
token_beq (bool a) (str b) = false
token_beq (bool a) (num b) = false
token_beq (bool a) (bool b) = a == b

pub token_beq_iff : (a b : Token) → (token_beq a b ≡ true) ↔ (a ≡ b)
token_beq_iff (punct a) (punct b) = ground (arith, string_eq.beq_iff a b)
token_beq_iff (punct a) (str b) = ground arith
token_beq_iff (punct a) (num b) = ground arith
token_beq_iff (punct a) (bool b) = ground arith
token_beq_iff (str a) (punct b) = ground arith
token_beq_iff (str a) (str b) = ground (arith, string_eq.beq_iff a b)
token_beq_iff (str a) (num b) = ground arith
token_beq_iff (str a) (bool b) = ground arith
token_beq_iff (num a) (punct b) = ground arith
token_beq_iff (num a) (str b) = ground arith
token_beq_iff (num a) (num b) = ground (arith, int_eq.beq_iff a b)
token_beq_iff (num a) (bool b) = ground arith
token_beq_iff (bool a) (punct b) = ground arith
token_beq_iff (bool a) (str b) = ground arith
token_beq_iff (bool a) (num b) = ground arith
token_beq_iff (bool a) (bool b) = ground (arith, bool_eq.beq_iff a b)

instance abbrev pub token_eq : Eq Token
token_eq = record { beq = token_beq; beq_iff = token_beq_iff }

abbrev pub Json : Type 0
Json = List Token

-- A property `"name": value`; one with no value is not printed.
abbrev pub property : String → Option Json → Json
property name none = []
property name (some value) = str name ∷ punct ":" ∷ value

abbrev pub object : Json → Json
object properties = punct "{" ∷ properties ++ punct "}" ∷ []

abbrev pub elements {ℓ} : {A : Type ℓ} → (A → Json) → List A → Json
elements stringify [] = []
elements stringify (x ∷ xs) = stringify x ++ elements stringify xs

abbrev pub array {ℓ} : {A : Type ℓ} → (A → Json) → List A → Json
array stringify xs = punct "[" ∷ elements stringify xs ++ punct "]" ∷ []

abbrev pub null_json : Json
null_json = punct "null" ∷ []

abbrev pub string : String → Json
string s = str s ∷ []

abbrev pub boolean : Bool → Json
boolean b = bool b ∷ []

abbrev pub integer : ℤ → Json
integer n = num n ∷ []

abbrev pub number : ℕ → Json
number n = num (pos n) ∷ []

-- A property of object type: `none` is undefined, and null is the text `null`. This is what has a value.
abbrev pub defined : Option Json → Option Json
defined none = none
defined (some value) = if value == null_json then none else some value

-- `strong ?? weak` on such properties
abbrev pub json_or : Option Json → Option Json → Option Json
json_or strong weak = if is_some (defined strong) then strong else weak

pub defined-json_or :
    (strong weak : Option Json)
    → defined (json_or strong weak) ≡ (defined strong or_else defined weak)
defined-json_or none weak = refl
defined-json_or (some value) weak = ground arith

-- `strong ?? weak ?? null`
abbrev pub json_or_null : Option Json → Option Json → Option Json
json_or_null strong weak = json_or strong (json_or weak (some null_json))

pub defined-json_or_null :
    (strong weak : Option Json)
    → defined (json_or_null strong weak) ≡ (defined strong or_else defined weak)
defined-json_or_null strong weak =
    defined-json_or strong (json_or weak (some null_json))
    ∙ ap (λ o. defined strong or_else o)
        (defined-json_or weak (some null_json) ∙ or_else-none (defined weak))
