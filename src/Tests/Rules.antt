-- ===== src/Tests/Rules.antt =====
-- The labels of an image.
use dyrectorio.Prelude.{List, String, [], false, includes_char, map, refl, some, true, ◌∷◌, ◌≡◌}
use dyrectorio.AgentCommand.{ok}
use dyrectorio.EnvironmentRules.{flag, text, parse_dyrectorio_env_rules}
use dyrectorio.EnvironmentRules.Params.{Rule, string, int}
use dyrectorio.EnvironmentRules.Labels.{label, parse-label}

abbrev some_rules : List (String × Rule)
some_rules =
    ("PORT", record { type = int; secret = false; required = true; default = some "80" })
    ∷ ("URL", record { type = string; secret = true; required = false; default = some "http://a" })
    ∷ []

-- The URL is cut at its colon.
parse-label_example :
    parse_dyrectorio_env_rules (some (map label some_rules))
    ≡ ok (
        (
          "PORT",
          ("secret", flag false)
              ∷ ("type", text "int")
              ∷ ("required", flag true)
              ∷ ("default", text "80")
              ∷ [],
        )
        ∷ ("URL", ("secret", flag true) ∷ ("type", text "string") ∷ ("default", text "http") ∷ [])
        ∷ [])
unfolding includes_char
parse-label_example = parse-label some_rules refl

parse_test :
    parse_dyrectorio_env_rules
      (some (("org.dyrectorio.env.PORT", "int,required") ∷ ("maintainer", "me") ∷ []))
    ≡ ok (
        ("PORT", ("secret", flag false) ∷ ("type", text "int") ∷ ("required", flag true) ∷ []) ∷ [])
unfolding parse_dyrectorio_env_rules
parse_test = refl
