-- ===== src/Conflict/Append.antt =====
-- domain/container-conflict.ts: recording a found conflict under the ids of the two configurations.
use dyrectorio.Prelude.{
  String, Bool, Option, none, some, List, [], ◌∷◌, ◌++◌, map, fold, contains, Eq, ◌==◌, string_eq,
  if◌then◌else◌,
}
use dyrectorio.Conflict.{
  ConflictedItem, ConflictedLog, ConflictedResourceConfig, ConflictedMarker, ConflictedLogKeys,
  ConflictedResourceConfigKeys, ConflictedMarkerKeys,
}

-- `if (!conflicts.includes(id)) conflicts.push(id)`
abbrev pub push_id : List String → String → List String
push_id conflicts id = if contains conflicts id then conflicts else conflicts ++ id ∷ []

unfoldable pub append_conflict : Option (List String) → String → String → List String
append_conflict none one_id other_id = one_id ∷ other_id ∷ []
append_conflict (some conflicts) one_id other_id = push_id (push_id conflicts one_id) other_id

module _ {K : Type 0} ⦃e : Eq K⦄ where
  -- One round of `keys.forEach`: the first entry of the key gets the ids, or a new one at the end.
  unfoldable pub record_conflict :
      String → String → List (ConflictedItem K) → K → List (ConflictedItem K)
  unfolding append_conflict
  record_conflict one_id other_id [] key =
      record { item = key; config_ids = append_conflict none one_id other_id } ∷ []
  record_conflict one_id other_id (c ∷ conflicts) key =
      if c.item == key
      then record c { config_ids = append_conflict (some c.config_ids) one_id other_id } ∷ conflicts
      else c ∷ record_conflict one_id other_id conflicts key

  unfoldable pub append_item_conflicts :
      Option (List (ConflictedItem K)) → String → String → List K → List (ConflictedItem K)
  unfolding record_conflict
  append_item_conflicts none one_id other_id keys =
      map (λ it. record { item = it; config_ids = one_id ∷ other_id ∷ [] }) keys
  append_item_conflicts (some conflicts) one_id other_id keys =
      fold (record_conflict one_id other_id) conflicts keys

  -- `if (keys) conflicts = appendUniqueItemConflicts(conflicts, …, keys)`
  unfoldable pub append_keys_if :
      Option (List K)
      → Option (List (ConflictedItem K))
      → String
      → String
      → Option (List (ConflictedItem K))
  unfolding append_item_conflicts
  append_keys_if none conflicts one_id other_id = conflicts
  append_keys_if (some keys) conflicts one_id other_id =
      some (append_item_conflicts conflicts one_id other_id keys)

-- `if (found) conflicts = appendConflict(conflicts, …)`
unfoldable pub append_if : Bool → Option (List String) → String → String → Option (List String)
unfolding append_conflict
append_if found conflicts one_id other_id =
    if found then some (append_conflict conflicts one_id other_id) else conflicts

abbrev pub log_or_empty : Option ConflictedLog → ConflictedLog
log_or_empty (some c) = c
log_or_empty none = record { driver = none; options = none }

unfoldable pub append_log_conflict :
    Option ConflictedLog → String → String → ConflictedLogKeys → ConflictedLog
unfolding append_if append_keys_if
append_log_conflict conflicts one_id other_id keys =
    let c = log_or_empty conflicts in
    record {
      driver = append_if keys.driver c.driver one_id other_id;
      options = append_keys_if keys.options c.options one_id other_id;
    }

abbrev pub resource_config_or_empty : Option ConflictedResourceConfig → ConflictedResourceConfig
resource_config_or_empty (some c) = c
resource_config_or_empty none = record { limits = none; requests = none }

unfoldable pub append_resource_config_conflict :
    Option ConflictedResourceConfig
    → String
    → String
    → ConflictedResourceConfigKeys
    → ConflictedResourceConfig
unfolding append_if
append_resource_config_conflict conflicts one_id other_id keys =
    let c = resource_config_or_empty conflicts in
    record {
      limits = append_if keys.limits c.limits one_id other_id;
      requests = append_if keys.requests c.requests one_id other_id;
    }

abbrev pub marker_or_empty : Option ConflictedMarker → ConflictedMarker
marker_or_empty (some c) = c
marker_or_empty none = record { service = none; deployment = none; ingress = none }

unfoldable pub append_marker_conflict :
    Option ConflictedMarker → String → String → ConflictedMarkerKeys → ConflictedMarker
unfolding append_keys_if
append_marker_conflict conflicts one_id other_id keys =
    let c = marker_or_empty conflicts in
    record {
      deployment = append_keys_if keys.deployment c.deployment one_id other_id;
      ingress = append_keys_if keys.ingress c.ingress one_id other_id;
      service = append_keys_if keys.service c.service one_id other_id;
    }
