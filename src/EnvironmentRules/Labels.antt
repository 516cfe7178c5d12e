-- ===== src/EnvironmentRules/Labels.antt =====
-- The labels of domain/image.ts are read as they are written.
use dyrectorio.Prelude.{
  Bool, List, Option, String, [], all, any, any-append, ap, append-nil, arith, false, fold,
  includes_char, map, none, refl, set, some, sym, true, ◌+++◌, ◌++◌, ◌∙◌, ◌∷◌, ◌≡◌,
}
use dyrectorio.AgentCommand.{ok}
use dyrectorio.EnvironmentRules.{
  flag, text, EnvironmentRule, after_prefix, dyo_env_label_prefix, add_param, add_params, rule_of,
  with_type, add_label, add_labels, put_rule, parse_dyrectorio_env_rules,
}
use dyrectorio.EnvironmentRules.Parts.{before_colon, split-join}
use dyrectorio.EnvironmentRules.Params.{
  EnvironmentValueType, string, boolean, int, Rule, type_text, default_params, flag_params,
  params_of, label_of, default_properties, required_properties, meaning_of, has_no_comma,
  add_param-default,
}

type_free : (t : EnvironmentValueType) → includes_char b',' (type_text t) ≡ false
unfolding includes_char
type_free string = refl
type_free boolean = refl
type_free int = refl

flag_free :
    (name : String) (b : Bool)
    → includes_char b',' name ≡ false
    → any (includes_char b',') (flag_params name b) ≡ false
flag_free name true free = ground (arith, free)
flag_free name false free = refl

default_free :
    (d : Option String)
    → has_no_comma d ≡ true
    → any (includes_char b',') (default_params d) ≡ false
unfolding includes_char
default_free none free = refl
default_free (some v) free = ground (arith, free)

params_free :
    (r : Rule) → has_no_comma r.default ≡ true → any (includes_char b',') (params_of r) ≡ false
unfolding includes_char
params_free r free = rw (type_free r.type) (
    any-append (includes_char b',')
      (flag_params "secret" r.secret ++ flag_params "required" r.required)
      (default_params r.default)
    ∙ rw (default_free r.default free) (
        rw
          (any-append (includes_char b',') (flag_params "secret" r.secret)
            (flag_params "required" r.required))
          (rw (flag_free "secret" r.secret refl, flag_free "required" r.required refl) refl)))

-- The object after the type and the flags.
abbrev pub flags_of : EnvironmentValueType → Bool → Bool → EnvironmentRule
flags_of t secret required =
    ("secret", flag secret) ∷ ("type", text (type_text t)) ∷ required_properties required

flags_read :
    (t : EnvironmentValueType) (secret required : Bool) (rest : List String)
    → add_params
        (ok (("secret", flag false) ∷ []))
        ((type_text t ∷ flag_params "secret" secret ++ flag_params "required" required) ++ rest)
      ≡ add_params (ok (flags_of t secret required)) rest
unfolding add_param
flags_read string true true rest = refl
flags_read string true false rest = refl
flags_read string false true rest = refl
flags_read string false false rest = refl
flags_read boolean true true rest = refl
flags_read boolean true false rest = refl
flags_read boolean false true rest = refl
flags_read boolean false false rest = refl
flags_read int true true rest = refl
flags_read int true false rest = refl
flags_read int false true rest = refl
flags_read int false false rest = refl

-- What is read, after the flags, of a default value.
typed_flags :
    (t : EnvironmentValueType) (secret required : Bool) (d : Option String)
    → with_type (add_params (ok (flags_of t secret required ++ default_properties d)) [])
      ≡ ok (flags_of t secret required ++ default_properties d)
typed_flags string secret required d = refl
typed_flags boolean secret required d = refl
typed_flags int secret required d = refl

set-default :
    (t : EnvironmentValueType) (secret required : Bool) (v : String)
    → set "default" (text v) (flags_of t secret required)
      ≡ flags_of t secret required ++ ("default", text v) ∷ []
set-default t secret true v = refl
set-default t secret false v = refl

default_read :
    (t : EnvironmentValueType) (secret required : Bool) (d : Option String)
    → with_type (add_params (ok (flags_of t secret required)) (default_params d))
      ≡ ok (flags_of t secret required ++ default_properties d)
default_read t secret required none =
    ap (λ rule. with_type (ok rule)) (sym (append-nil (flags_of t secret required)))
    ∙ typed_flags t secret required none
default_read t secret required (some v) =
    ap (λ r. with_type (add_params r []))
      (add_param-default (flags_of t secret required) v
        ∙ ap ok (set-default t secret required (before_colon v)))
    ∙ typed_flags t secret required (some v)

-- The value of a label that is written for a rule is read as that rule, where its default value has
-- no comma; but the default value is cut at its first colon.
rule_of-label_of :
    (r : Rule) → has_no_comma r.default ≡ true → rule_of (label_of r) ≡ ok (meaning_of r)
unfolding rule_of
rule_of-label_of r free =
    ap (λ l. with_type (add_params (ok (("secret", flag false) ∷ [])) l))
      (split-join (type_text r.type)
        ((flag_params "secret" r.secret ++ flag_params "required" r.required)
          ++ default_params r.default)
        (params_free r free))
    ∙ ap with_type (flags_read r.type r.secret r.required (default_params r.default))
    ∙ default_read r.type r.secret r.required r.default

after_prefix-append : (p s : String) → after_prefix p (p +++ s) ≡ some s
unfolding after_prefix
after_prefix-append String.[] s = refl
after_prefix-append (String.◌∷◌ c p) s = ground (arith, after_prefix-append p s)

-- The label of a variable and its rule.
abbrev pub label : String × Rule → String × String
label (env, r) = (dyo_env_label_prefix +++ String.◌∷◌ "." env, label_of r)

abbrev pub put : List (String × EnvironmentRule) → String × Rule → List (String × EnvironmentRule)
put rules (env, r) = set env (meaning_of r) rules

add_labels-label :
    (rules : List (String × EnvironmentRule)) (rs : List (String × Rule))
    → all (λ e. has_no_comma e.1.default) rs ≡ true
    → add_labels (ok rules) (map label rs) ≡ ok (fold put rules rs)
add_labels-label rules [] free = refl
add_labels-label rules ((env, r) ∷ rs) free =
    ap (λ o. add_labels (add_label rules o (label_of r)) (map label rs))
      (after_prefix-append dyo_env_label_prefix (String.◌∷◌ "." env))
    ∙ ap (λ o. add_labels (put_rule rules env o) (map label rs))
        (rule_of-label_of r (ground (arith, free)))
    ∙ add_labels-label (set env (meaning_of r) rules) rs (ground (arith, free))

-- Labels that are written for variables and their rules, by the documented format, are read without
-- an error, and as those rules: the last one of a variable counts. Default values have no comma here,
-- and what stands behind the first colon of a default value is lost.
pub parse-label :
    (rs : List (String × Rule))
    → all (λ e. has_no_comma e.1.default) rs ≡ true
    → parse_dyrectorio_env_rules (some (map label rs)) ≡ ok (fold put [] rs)
unfolding parse_dyrectorio_env_rules
parse-label rs free = add_labels-label [] rs free
