-- ===== src/Conflict/Storage.antt =====
-- Bundles can not be deployed together: checkStorageConflict of domain/container-conflict.ts.
use dyrectorio.Prelude.{
  String, true, some, List, ◌∷◌, map, is_some, Bool-cases, inl, inr, string_eq, list_eq, list_beq,
  list_beq_iff, or-true, ◌≡◌, ◌≢◌, refl, ◌∙◌,
}
use dyrectorio.Json.{token_eq}
use dyrectorio.Container.{ContainerConfigDataWithId, ConcreteContainerConfigData}
use dyrectorio.Container.Stringify.{config_with_id_json}
use dyrectorio.Conflict.{ConflictedContainerConfigData}
use dyrectorio.Conflict.Values.{values_conflict}
use dyrectorio.Conflict.Check.{
  all_conflicts, has_conflicts, check_for_conflicts, delete_defined, defined_keys_of,
  get_conflicts_for_concrete_config,
}
use dyrectorio.Conflict.Compared.{all_conflicts-storage}

config_with_id_json-injective :
    (a b : ContainerConfigDataWithId) → config_with_id_json a ≡ config_with_id_json b → a.id ≡ b.id
unfolding config_with_id_json
config_with_id_json-injective a b h = cc

json_differs :
    (a b : ContainerConfigDataWithId)
    → a.id ≢ b.id
    → values_conflict (some (config_with_id_json a)) (some (config_with_id_json b)) ≡ true
json_differs a b h = elim (Bool-cases (list_beq (config_with_id_json a) (config_with_id_json b))) [
  | inl same ↦ absurd (h (config_with_id_json-injective a b ((list_beq_iff _ _).0 same)))
  | inr other ↦ rw other refl
]

has_conflicts-storage :
    (c : ConflictedContainerConfigData) → is_some c.common.storage ≡ true → has_conflicts c ≡ true
unfolding has_conflicts
has_conflicts-storage c h = simp (h, or-true)

check_for_conflicts-is_some :
    (configs : List ContainerConfigDataWithId) (keys : List String)
    → has_conflicts (all_conflicts (map (delete_defined keys) configs)) ≡ true
    → is_some (check_for_conflicts configs keys) ≡ true
unfolding check_for_conflicts
check_for_conflicts-is_some configs keys h = rw h refl

first_two_conflict :
    (a b : ContainerConfigDataWithId) (rest : List ContainerConfigDataWithId)
    → a.id ≢ b.id
    → is_some (all_conflicts (a ∷ b ∷ rest)).common.storage ≡ true
first_two_conflict a b rest h =
    (all_conflicts-storage (a ∷ b ∷ rest)).1 ∙ rw (json_differs a b h) (simp or-true)

-- Two configurations with different ids are in conflict, whatever they hold and whatever keys the
-- concrete configuration defines: the check never returns `null` for a list that begins with them.
pub get_conflicts-is_some :
    (a b : ContainerConfigDataWithId) (rest : List ContainerConfigDataWithId)
    (concrete : ConcreteContainerConfigData)
    → a.id ≢ b.id
    → is_some (get_conflicts_for_concrete_config (a ∷ b ∷ rest) concrete) ≡ true
unfolding get_conflicts_for_concrete_config delete_defined
get_conflicts-is_some a b rest concrete h =
    check_for_conflicts-is_some (a ∷ b ∷ rest) (defined_keys_of concrete)
      (has_conflicts-storage _ (first_two_conflict _ _ _ h))
