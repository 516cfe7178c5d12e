-- ===== src/Tests/Conflict.antt =====
-- The checks of conflicts on two bundles.
use dyrectorio.Prelude.{
  list_eq, String, Option, ◌==◌, ◌≢◌, true, false, none, some, [], ◌∷◌, ◌&&◌, is_some, items, any,
  string_eq, ◌≡◌, refl, arith,
}
use dyrectorio.Container.{empty_config, ContainerPortRange, ContainerConfigDataWithId}
use dyrectorio.Merge.{squash_configs}
use dyrectorio.Conflict.{range_eq}
use dyrectorio.Conflict.Values.{objects_conflict, port_ranges_conflict, unique_key_values_conflict}
use dyrectorio.Conflict.Check.{all_conflicts, get_conflicts_for_concrete_config}
use dyrectorio.Conflict.Reports.{Reports}
use dyrectorio.Container.Stringify.{config_with_id_json}
use dyrectorio.Json.{null_json, object, token_eq}
use dyrectorio.Conflict.Storage.{get_conflicts-is_some}
use dyrectorio.Conflict.Compared.{all_conflicts-Reports, all_conflicts-storage}
use dyrectorio.Conflict.Keyed.{all_conflicts-ReportsKeys, under}
use dyrectorio.Conflict.Resolved.{found, get_conflicts-resolved}
use dyrectorio.Conflict.Agreement.{squash_configs-name_agreed}
use dyrectorio.Conflict.External.{port_ranges_conflict-external}
use dyrectorio.Tests.Data.{api_bundle, web_bundle, two_bundles, concrete_named, ports_from_to}

differ : (a b : String) → (a == b) ≡ false → a ≢ b
differ a b h = ground (arith, string_eq.beq_iff a b)

none_of_no_some : {A : Type 0} (o : Option A) → is_some o ≡ false → o ≡ none
none_of_no_some none h = refl
none_of_no_some (some a) h = cc

get_conflicts-is_some_example :
    is_some (get_conflicts_for_concrete_config two_bundles (concrete_named "api")) ≡ true
get_conflicts-is_some_example =
    get_conflicts-is_some api_bundle web_bundle [] (concrete_named "api") (differ _ _ refl)

all_conflicts-Reports_example : is_some (all_conflicts two_bundles).common.name ≡ true
all_conflicts-Reports_example = (all_conflicts-Reports two_bundles).0.1

all_conflicts-storage_example :
    Reports two_bundles
      (λ c. some (config_with_id_json c))
      (all_conflicts two_bundles).common.storage
all_conflicts-storage_example = all_conflicts-storage two_bundles

all_conflicts-ReportsKeys_example :
    any (under "MODE" "bundle-2") (items (all_conflicts two_bundles).common.environment) ≡ true
unfolding unique_key_values_conflict
all_conflicts-ReportsKeys_example = (all_conflicts-ReportsKeys two_bundles).0 "MODE" "bundle-2"

get_conflicts-resolved_example :
    (true && is_some (found two_bundles (concrete_named "api")).common.name) ≡ false
get_conflicts-resolved_example = (get_conflicts-resolved (concrete_named "api") two_bundles).0

-- A null object is in conflict with a set one, a missing one is not.
objects_conflict_tests :
    (objects_conflict (some null_json) (some (object [])) ≡ true)
    × (objects_conflict none (some (object [])) ≡ false)
unfolding objects_conflict
objects_conflict_tests = (refl, refl)

abbrev unnamed_bundle : ContainerConfigDataWithId
unnamed_bundle = record { id = "bundle-3"; config = empty_config }

no_name_conflict : (all_conflicts (api_bundle ∷ unnamed_bundle ∷ [])).common.name ≡ none
no_name_conflict = none_of_no_some _ (all_conflicts-Reports (api_bundle ∷ unnamed_bundle ∷ [])).0.1

squash_configs-name_agreed_example :
    (squash_configs (api_bundle.config ∷ empty_config ∷ [])).body.common.name ≡ some "api"
squash_configs-name_agreed_example =
    squash_configs-name_agreed (api_bundle ∷ unnamed_bundle ∷ []) "api" no_name_conflict refl

abbrev moved : ContainerPortRange
moved = record (ports_from_to "2" 90 95) { external = record { from = 8000; to = 8005 } }

port_ranges_conflict-external_example :
    port_ranges_conflict (some (ports_from_to "1" 8000 8005 ∷ [])) (some (moved ∷ []))
    ≡ port_ranges_conflict
        (some (ports_from_to "1" 8000 8005 ∷ []))
        (some (ports_from_to "2" 90 95 ∷ []))
port_ranges_conflict-external_example =
    port_ranges_conflict-external (some (ports_from_to "1" 8000 8005 ∷ [])) (moved ∷ [])
      (ports_from_to "2" 90 95 ∷ []) refl
