-- ===== src/EnvironmentRules/Params.antt =====
-- The parameters of a label of domain/image.ts, as its documentation has them.
use Prim.Native.Char.{code}
use dyrectorio.Prelude.{
  Bool, Bool-cases, List, Option, String, [], ap, arith, false, includes_char, inl, inr, none, not,
  refl, set, some, split, string_eq, sym, true, ℕ, ◌+++◌, ◌++◌, ◌==◌, ◌∙◌, ◌∷◌, ◌≡◌, ◌≢◌, nat_eq,
}
use dyrectorio.AgentCommand.{ok}
use dyrectorio.EnvironmentRules.{flag, text, EnvironmentRule, add_param}
use dyrectorio.EnvironmentRules.Parts.{colon, before_colon, split-before_colon, join}

-- A rule as the documentation of the labels has it.
pub data EnvironmentValueType : Type 0 where
  string boolean int : EnvironmentValueType

pub record Rule : Type 0 where
  pub type : EnvironmentValueType
  pub secret : Bool
  pub required : Bool
  pub default : Option String

abbrev pub type_text : EnvironmentValueType → String
type_text string = "string"
type_text boolean = "boolean"
type_text int = "int"

abbrev pub default_params : Option String → List String
default_params none = []
default_params (some v) = ("default" +++ String.◌∷◌ colon v) ∷ []

abbrev pub flag_params : String → Bool → List String
flag_params name true = name ∷ []
flag_params name false = []

abbrev pub params_of : Rule → List String
params_of r =
    (type_text r.type ∷ flag_params "secret" r.secret ++ flag_params "required" r.required)
    ++ default_params r.default

abbrev pub label_of : Rule → String
label_of r = join (params_of r)

-- The object that the rule means; a default value is cut at its first colon.
abbrev pub default_properties : Option String → EnvironmentRule
default_properties none = []
default_properties (some v) = ("default", text (before_colon v)) ∷ []

abbrev pub required_properties : Bool → EnvironmentRule
required_properties true = ("required", flag true) ∷ []
required_properties false = []

abbrev pub meaning_of : Rule → EnvironmentRule
meaning_of r =
    (("secret", flag r.secret) ∷ ("type", text (type_text r.type)) ∷ required_properties r.required)
    ++ default_properties r.default

abbrev pub has_no_comma : Option String → Bool
has_no_comma none = true
has_no_comma (some v) = not (includes_char b',' v)

abbrev first_code : String → ℕ
first_code String.[] = 0
first_code (String.◌∷◌ c s) = code c

-- A text that starts with a `d` is none of the words.
pub not_a_word :
    (s word : String) → first_code s ≡ b'd' → first_code word ≢ b'd' → (s == word) ≡ false
not_a_word s word d other = elim (Bool-cases (s == word)) [
  | inl same ↦ absurd (other (ap first_code (sym ((string_eq.beq_iff s word).0 same)) ∙ d))
  | inr differs ↦ differs
]

pub add_param-default :
    (rule : EnvironmentRule) (v : String)
    → add_param rule ("default" +++ String.◌∷◌ colon v)
      ≡ ok (set "default" (text (before_colon v)) rule)
unfolding add_param includes_char split
add_param-default rule v =
    let it = "default" +++ String.◌∷◌ colon v in
    let (parts, same) = split-before_colon v in
    rw
      (
        not_a_word it "required" refl (omega arith),
        not_a_word it "secret" refl (omega arith),
        not_a_word it "string" refl (omega arith),
        not_a_word it "boolean" refl (omega arith),
        not_a_word it "int" refl (omega arith),
        same,
      )
      refl
