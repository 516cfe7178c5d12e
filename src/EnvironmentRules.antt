-- ===== src/EnvironmentRules.antt =====
-- domain/image.ts: parseDyrectorioEnvRules, the rules for environment variables in the labels of an
-- image. A rule is the object that the source fills, by its keys in the order of insertion.
pub mod Parts
pub mod Params
pub mod Labels
use Prim.Native.Char.{Char, code}
use Prim.Native.String
use dyrectorio.Prelude.{
  Bool, List, Option, String, [], false, if◌then◌else◌, includes_char, lookup, none, not, set, some,
  split, true, ◌-◌, ◌==◌, ◌||◌, ◌∷◌, string_eq, nat_eq,
}
use dyrectorio.AgentCommand.{CruxError, Result, ok, err}

abbrev pub dyo_env_label_prefix : String
dyo_env_label_prefix = "org.dyrectorio.env"

pub data RuleValue : Type 0 where
  flag : Bool → RuleValue
  text : String → RuleValue

abbrev pub EnvironmentRule : Type 0
EnvironmentRule = List (String × RuleValue)

-- `key.startsWith(prefix)`, and the rest of the key.
unfoldable pub after_prefix : String → String → Option String
after_prefix String.[] key = some key
after_prefix (String.◌∷◌ c prefix) String.[] = none
after_prefix (String.◌∷◌ c prefix) (String.◌∷◌ d key) =
    let rest = after_prefix prefix key in if code c == code d then rest else none

abbrev pub without_first : String → String
without_first String.[] = String.[]
without_first (String.◌∷◌ c rest) = rest

abbrev pub is_value_type : String → Bool
is_value_type it = it == "string" || it == "boolean" || it == "int"

-- `rule[prop] = propValue`, with the first two parts.
abbrev pub set_property : List String → EnvironmentRule → EnvironmentRule
set_property (prop ∷ value ∷ parts) rule = set prop (text value) rule
set_property (prop ∷ []) rule = rule
set_property [] rule = rule

unfoldable pub add_param : EnvironmentRule → String → Result EnvironmentRule
unfolding split includes_char
add_param rule it =
    if it == "required"
    then ok (set "required" (flag true) rule)
    else if it == "secret"
    then ok (set "secret" (flag true) rule)
    else if is_value_type it
    then ok (set "type" (text it) rule)
    else if includes_char b':' it
    then ok (set_property (split b':' it) rule)
    else err CruxError.internal_server_error

abbrev pub add_params : Result EnvironmentRule → List String → Result EnvironmentRule
add_params (err e) [] = err e
add_params (err e) (it ∷ params) = err e
add_params (ok rule) [] = ok rule
add_params (ok rule) (it ∷ params) = add_params (add_param rule it) params

-- `!rule.type`
abbrev pub is_typed : Option RuleValue → Bool
is_typed none = false
is_typed (some (flag b)) = b
is_typed (some (text t)) = not (t == "")

abbrev pub with_type : Result EnvironmentRule → Result EnvironmentRule
with_type (err e) = err e
with_type (ok rule) =
    if is_typed (lookup "type" rule) then ok rule else err CruxError.internal_server_error

unfoldable pub rule_of : String → Result EnvironmentRule
unfolding add_param
rule_of value = with_type (add_params (ok (("secret", flag false) ∷ [])) (split b',' value))

abbrev pub put_rule :
    List (String × EnvironmentRule)
    → String
    → Result EnvironmentRule
    → Result (List (String × EnvironmentRule))
put_rule rules env (err e) = err e
put_rule rules env (ok rule) = ok (set env rule rules)

abbrev pub add_label :
    List (String × EnvironmentRule)
    → Option String
    → String
    → Result (List (String × EnvironmentRule))
add_label rules none value = ok rules
add_label rules (some rest) value = put_rule rules (without_first rest) (rule_of value)

abbrev pub add_labels :
    Result (List (String × EnvironmentRule))
    → List (String × String)
    → Result (List (String × EnvironmentRule))
add_labels (err e) [] = err e
add_labels (err e) (l ∷ labels) = err e
add_labels (ok rules) [] = ok rules
add_labels (ok rules) ((key, value) ∷ labels) =
    add_labels (add_label rules (after_prefix dyo_env_label_prefix key) value) labels

unfoldable pub parse_dyrectorio_env_rules :
    Option (List (String × String)) → Result (List (String × EnvironmentRule))
unfolding rule_of after_prefix
parse_dyrectorio_env_rules none = ok []
parse_dyrectorio_env_rules (some labels) = add_labels (ok []) labels
