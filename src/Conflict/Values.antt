-- ===== src/Conflict/Values.antt =====
-- domain/container-conflict.ts: when two values of one property are in conflict.
use mathlib.Core.Option
use dyrectorio.Prelude.{
  ℕ, ℤ, String, Bool, true, false, not, ◌||◌, Option, none, some, List, [], ◌∷◌, map, filter, find,
  any, Eq, ◌==◌, nat_eq, string_eq, bool_eq, int_eq, list_eq, is_some,
}
use dyrectorio.Json.{Json, token_eq}
use dyrectorio.Container.{
  UniqueKeyValue, Port, PortRange, ContainerPortRange, Volume, Log, ResourceConfig, Marker,
}
use dyrectorio.Container.Stringify.{volume_json}
use dyrectorio.Conflict.{
  ranges_overlap, ConflictedLogKeys, ConflictedResourceConfigKeys, ConflictedMarkerKeys,
}

-- Two values of a type with `!==`; a missing one is never in conflict. The section of the source
-- has one function for each of the three types.
abbrev pub values_conflict {ℓ} : {A : Type ℓ} ⦃e : Eq A⦄ → Option A → Option A → Bool
values_conflict none other = false
values_conflict (some one) none = false
values_conflict (some one) (some other) = not (one == other)

unfoldable pub strings_conflict : Option String → Option String → Bool
strings_conflict = values_conflict

unfoldable pub booleans_conflict : Option Bool → Option Bool → Bool
booleans_conflict = values_conflict

unfoldable pub numbers_conflict : Option ℤ → Option ℤ → Bool
numbers_conflict = values_conflict

-- Objects, by their JSON texts. The source's test `typeof one === null` never holds and the type of
-- null is 'object', so null is an object with the text `null` here; only undefined is `none`.
unfoldable pub objects_conflict : Option Json → Option Json → Bool
objects_conflict = values_conflict

-- `conflicts.length < 1 ? null : conflicts`
abbrev pub none_if_empty {ℓ} : {A : Type ℓ} → List A → Option (List A)
none_if_empty [] = none
none_if_empty (x ∷ xs) = some (x ∷ xs)

abbrev pub key_value_conflicts : List UniqueKeyValue → UniqueKeyValue → Bool
key_value_conflicts other item = elim (find (λ it. it.key == item.key) other) [
  | none ↦ false
  | some other_item ↦ not (item.value == other_item.value)
]

unfoldable pub unique_key_values_conflict :
    Option (List UniqueKeyValue) → Option (List UniqueKeyValue) → Option (List String)
unique_key_values_conflict none other = none
unique_key_values_conflict (some one) none = none
unique_key_values_conflict (some one) (some other) =
    none_if_empty (map (λ it. it.key) (filter (key_value_conflicts other) one))

abbrev pub port_conflicts : List Port → Port → Bool
port_conflicts other item = any (λ it. it.internal == item.internal) other

unfoldable pub ports_conflict : Option (List Port) → Option (List Port) → Option (List ℕ)
ports_conflict none other = none
ports_conflict (some one) none = none
ports_conflict (some one) (some other) =
    none_if_empty (map (λ it. it.internal) (filter (port_conflicts other) one))

-- The second test compares two ranges of `item`, as the source does.
abbrev pub port_range_conflicts : List ContainerPortRange → ContainerPortRange → Bool
port_range_conflicts other item =
    any
      (λ it. ranges_overlap item.internal it.internal || ranges_overlap item.external item.internal)
      other

unfoldable pub port_ranges_conflict :
    Option (List ContainerPortRange) → Option (List ContainerPortRange) → Option (List PortRange)
unfolding ranges_overlap
port_ranges_conflict none other = none
port_ranges_conflict (some one) none = none
port_ranges_conflict (some one) (some other) =
    none_if_empty (map (λ it. it.internal) (filter (port_range_conflicts other) one))

abbrev pub volume_conflicts : List Volume → Volume → Bool
volume_conflicts other item =
    objects_conflict (some (volume_json item))
      (Option.map volume_json (find (λ it. it.path == item.path) other))

unfoldable pub volumes_conflict : Option (List Volume) → Option (List Volume) → Option (List String)
unfolding objects_conflict
volumes_conflict none other = none
volumes_conflict (some one) none = none
volumes_conflict (some one) (some other) =
    none_if_empty (map (λ it. it.path) (filter (volume_conflicts other) one))

-- `Object.keys(conflicts).length < 1 ? null : conflicts`
abbrev pub log_keys_or_none : ConflictedLogKeys → Option ConflictedLogKeys
log_keys_or_none keys = elim (keys.driver || is_some keys.options) [
  | true ↦ some keys
  | false ↦ none
]

unfoldable pub logs_conflict : Option Log → Option Log → Option ConflictedLogKeys
unfolding strings_conflict unique_key_values_conflict
logs_conflict none other = none
logs_conflict (some one) none = none
logs_conflict (some one) (some other) = log_keys_or_none (record {
  driver = strings_conflict one.driver other.driver;
  options = unique_key_values_conflict one.options other.options;
})

abbrev pub resource_keys_or_none :
    ConflictedResourceConfigKeys → Option ConflictedResourceConfigKeys
resource_keys_or_none keys = elim (keys.limits || keys.requests) [ true ↦ some keys | false ↦ none ]

unfoldable pub resource_configs_conflict :
    Option ResourceConfig → Option ResourceConfig → Option ConflictedResourceConfigKeys
unfolding objects_conflict
resource_configs_conflict none other = none
resource_configs_conflict (some one) none = none
resource_configs_conflict (some one) (some other) = resource_keys_or_none (record {
  limits = objects_conflict one.limits other.limits;
  requests = objects_conflict one.requests other.requests;
})

abbrev pub marker_keys_or_none : ConflictedMarkerKeys → Option ConflictedMarkerKeys
marker_keys_or_none keys =
    elim (is_some keys.deployment || is_some keys.ingress || is_some keys.service) [
      | true ↦ some keys
      | false ↦ none
    ]

unfoldable pub markers_conflict : Option Marker → Option Marker → Option ConflictedMarkerKeys
unfolding unique_key_values_conflict
markers_conflict none other = none
markers_conflict (some one) none = none
markers_conflict (some one) (some other) = marker_keys_or_none (record {
  deployment = unique_key_values_conflict one.deployment other.deployment;
  ingress = unique_key_values_conflict one.ingress other.ingress;
  service = unique_key_values_conflict one.service other.service;
})
