-- ===== src/Conflict/Agreement.antt =====
-- Where checkForConflicts finds no conflict, the order of the bundles does not matter to
-- squashConfigs (domain/container-conflict.ts and domain/container-merge.ts).
use dyrectorio.Conflict.Compared.{all_conflicts-Reports}
use dyrectorio.Merge.{squash_configs}
use dyrectorio.Conflict.Reports.{Reports}
use dyrectorio.Conflict.Check.{all_conflicts}
use dyrectorio.Container.{ContainerConfigDataWithId, ContainerConfigData}
use dyrectorio.Prelude.{
  true, false, Option, none, some, List, [], ◌∷◌, any, is_some, Eq, ◌==◌, string_eq, option_eq,
  int_eq, bool_eq, list_eq, ◌≡◌, refl, arith, inl, inr, Option-cases, ◌⊎◌, Bool-cases, String,
  option_beq_iff, map, any-map, ap, ◌∙◌, sym,
}
use dyrectorio.Json.{token_eq}
use dyrectorio.Merge.Squash.{last_defined, squash_configs-common}
use dyrectorio.Conflict.Values.{values_conflict}

module _ {A : Type 0} ⦃e : Eq A⦄ where
  -- A value that is in conflict with none of a list is the last value of the list.
  last_of_agreeing :
      (v : A) (xs : List (Option A))
      → any (values_conflict (some v)) xs ≡ false
      → (last_defined xs ≡ none) ⊎ (last_defined xs ≡ some v)
  last_of_agreeing v [] h = inl refl
  last_of_agreeing v (none ∷ xs) h = ground (arith, last_of_agreeing v xs h)
  last_of_agreeing v (some x ∷ xs) h = ground (arith, last_of_agreeing v xs, e.beq_iff v x)

  last_of_present :
      (v : A) (xs : List (Option A))
      → any (λ x. x == some v) xs ≡ true
      → is_some (last_defined xs) ≡ true
  last_of_present v [] h = cc
  last_of_present v (none ∷ xs) h = ground (arith, last_of_present v xs)
  last_of_present v (some x ∷ xs) h = elim (Option-cases (last_defined xs)) [
    | inl missing ↦ rw missing refl
    | inr (a, found) ↦ rw found refl
  ]

  pub last_of_agreed :
      (v : A) (xs : List (Option A))
      → any (values_conflict (some v)) xs ≡ false
      → any (λ x. x == some v) xs ≡ true
      → last_defined xs ≡ some v
  last_of_agreed v xs agree has =
      ground (arith, last_of_agreeing v xs agree, last_of_present v xs has)

module _ {A : Type 0} ⦃e : Eq A⦄ (get : ContainerConfigDataWithId → Option A)
    (configs : List ContainerConfigDataWithId) where
  -- Whoever has the value is in conflict with none, so the value is in conflict with none.
  value_in_no_conflict :
      (v : A) (some_configs : List ContainerConfigDataWithId)
      → any (λ c. any (λ d. values_conflict (get c) (get d)) configs) some_configs ≡ false
      → any (λ c. get c == some v) some_configs ≡ true
      → any (λ d. values_conflict (some v) (get d)) configs ≡ false
  value_in_no_conflict v [] h k = cc
  value_in_no_conflict v (c ∷ rest) h k = elim (Bool-cases (get c == some v)) [
    | inl here ↦
        let same : get c ≡ some v = (option_beq_iff (get c) (some v)).0 here in
        rw (← same) (ground arith)
    | inr other ↦ value_in_no_conflict v rest (ground arith) (ground arith)
  ]

  agreed :
      (ids : Option (List String)) (v : A)
      → Reports configs get ids
      → ids ≡ none
      → any (λ c. get c == some v) configs ≡ true
      → last_defined (map get configs) ≡ some v
  agreed ids v (_, some_iff) absent has =
      last_of_agreed v (map get configs)
        (any-map (values_conflict (some v)) get configs
          ∙ value_in_no_conflict v configs (sym some_iff ∙ rw absent refl) has)
        (any-map (λ x. x == some v) get configs ∙ has)

map-config :
    {A : Type 0} (get : ContainerConfigData → Option A) (configs : List ContainerConfigDataWithId)
    → map get (map (λ c. c.config) configs) ≡ map (λ c. get c.config) configs
map-config get [] = refl
map-config get (c ∷ configs) = ap (λ l. get c.config ∷ l) (map-config get configs)

-- If no conflict of names is recorded for a list of configurations, then the squashed configuration
-- has the name of any of them that has one, wherever it stands in the list.
pub squash_configs-name_agreed :
    (configs : List ContainerConfigDataWithId) (name : String)
    → (all_conflicts configs).common.name ≡ none
    → any (λ c. c.config.body.common.name == some name) configs ≡ true
    → (squash_configs (map (λ c. c.config) configs)).body.common.name ≡ some name
squash_configs-name_agreed configs name absent has =
    (squash_configs-common (map (λ c. c.config) configs)).0
    ∙ ap last_defined (map-config (λ c. c.body.common.name) configs)
    ∙ agreed (λ c. c.config.body.common.name) configs (all_conflicts configs).common.name name
        (all_conflicts-Reports configs).0 absent has
