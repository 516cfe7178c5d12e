-- ===== src/Conflict/Reports.antt =====
-- What checkForConflicts of domain/container-conflict.ts reports of the properties that are
-- compared whole.
use dyrectorio.Prelude.{
  String, false, ◌&&◌, Option, none, some, List, fold, any, contains, fold-project, is_some, items,
  Eq, ◌==◌, string_eq, int_eq, bool_eq, list_eq, beq_refl, beq_sym, ◌≡◌, refl, ◌∙◌,
}
use dyrectorio.Json.{token_eq}
use dyrectorio.Container.{ContainerConfigDataWithId}
use dyrectorio.Conflict.{ConflictedContainerConfigData}
use dyrectorio.Conflict.Values.{values_conflict}
use dyrectorio.Conflict.Collect.{collect_conflicts}
use dyrectorio.Conflict.Check.{all_conflicts, no_conflicts, ordered_pairs}
use dyrectorio.Conflict.Pairs.{any-ordered_pairs, any-ordered_pairs_some}
use dyrectorio.Conflict.Ids.{collect_ids, contains-fold, is_some-fold}

abbrev Config : Type 0
Config = ContainerConfigDataWithId

module _ {ℓ} {A : Type ℓ} ⦃e : Eq A⦄ where
  values_conflict_irreflexive : (a : Option A) → values_conflict a a ≡ false
  values_conflict_irreflexive none = refl
  values_conflict_irreflexive (some a) = rw (beq_refl a) refl

  values_conflict_symmetric : (a b : Option A) → values_conflict a b ≡ values_conflict b a
  values_conflict_symmetric none none = refl
  values_conflict_symmetric none (some b) = refl
  values_conflict_symmetric (some a) none = refl
  values_conflict_symmetric (some a) (some b) = rw (beq_sym a b) refl

-- The ids that are recorded for a property are those of the configurations whose value differs from
-- the value of another one, and the property is in the result when there is such a configuration.
abbrev pub Reports :
    {A : Type 0} ⦃e : Eq A⦄ → List Config → (Config → Option A) → Option (List String) → Type 0
Reports configs get ids =
    ((i : String)
      → contains (items ids) i
        ≡ any (λ c. c.id == i && any (λ d. values_conflict (get c) (get d)) configs) configs)
    × (is_some ids ≡ any (λ c. any (λ d. values_conflict (get c) (get d)) configs) configs)

module _ {A : Type 0} ⦃e : Eq A⦄ (get : Config → Option A)
    (ids : ConflictedContainerConfigData → Option (List String))
    (ids-collect : (conflicts : ConflictedContainerConfigData) (p : Config × Config)
      → ids (collect_conflicts p.0 p.1 conflicts)
        ≡ collect_ids (λ c. c.id) (λ c d. values_conflict (get c) (get d)) (ids conflicts) p)
    (absent : ids no_conflicts ≡ none) (configs : List Config) where
  ids-fold :
      ids (all_conflicts configs)
      ≡ fold
          (collect_ids (λ c. c.id) (λ c d. values_conflict (get c) (get d)))
          none
          (ordered_pairs configs)
  unfolding all_conflicts
  ids-fold =
      fold-project ids (λ conflicts pair. collect_conflicts pair.0 pair.1 conflicts)
        (collect_ids (λ c. c.id) (λ c d. values_conflict (get c) (get d))) ids-collect no_conflicts
        (ordered_pairs configs)
      ∙ rw absent refl

  pub reports : Reports configs get (ids (all_conflicts configs))
  reports = rw ids-fold (
    λ i.
        contains-fold (λ c. c.id) (λ c d. values_conflict (get c) (get d)) none
          (ordered_pairs configs) i
        ∙ any-ordered_pairs (λ c. c.id) (λ c d. values_conflict (get c) (get d))
            (λ c. values_conflict_irreflexive (get c))
            (λ c d. values_conflict_symmetric (get c) (get d)) i configs,
    is_some-fold (λ c. c.id) (λ c d. values_conflict (get c) (get d)) none (ordered_pairs configs)
        ∙ any-ordered_pairs_some (λ (c : Config). c.id) (λ c d. values_conflict (get c) (get d))
            (λ c. values_conflict_irreflexive (get c))
            (λ c d. values_conflict_symmetric (get c) (get d)) configs,
  )
