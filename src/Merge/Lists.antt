-- ===== src/Merge/Lists.antt =====
-- mergeUniqueKeys, mergePorts, mergePortRanges and mergeVolumes of domain/container-merge.ts.
-- They share one shape: `Array.find` serves as a test there, which is `any` here.
use dyrectorio.Prelude.{
  String, Bool, not, ◌||◌, Option, none, some, List, ◌++◌, filter, any, Eq, ◌==◌, string_eq, nat_eq,
}
use dyrectorio.Container.{
  UniqueKey, UniqueKeyValue, UniqueSecretKeyValue, Port, ContainerPortRange, Volume,
}
use dyrectorio.Conflict.{ranges_overlap}

-- The four merges of lists: the strong items, then the weak ones that no strong item replaces.
unfoldable pub merge_lists {ℓ} :
    {A : Type ℓ} → (A → A → Bool) → Option (List A) → Option (List A) → Option (List A)
merge_lists replaces none weak = weak
merge_lists replaces (some strong) none = some strong
merge_lists replaces (some strong) (some weak) =
    some (strong ++ filter (λ w. not (any (λ it. replaces it w) strong)) weak)

abbrev pub same_key {ℓ κ} : {A : Type ℓ} {K : Type κ} ⦃e : Eq K⦄ → (A → K) → A → A → Bool
same_key key it w = key it == key w

abbrev pub merge_unique_keys {ℓ} :
    {A : Type ℓ} → (A → String) → Option (List A) → Option (List A) → Option (List A)
merge_unique_keys key = merge_lists (same_key key)

abbrev pub merge_ports : Option (List Port) → Option (List Port) → Option (List Port)
merge_ports = merge_lists (same_key λ it. it.internal)

abbrev pub range_taken : ContainerPortRange → ContainerPortRange → Bool
range_taken it w = ranges_overlap w.internal it.internal || ranges_overlap w.external it.external

abbrev pub merge_port_ranges :
    Option (List ContainerPortRange)
    → Option (List ContainerPortRange)
    → Option (List ContainerPortRange)
merge_port_ranges = merge_lists range_taken

abbrev pub volume_taken : Volume → Volume → Bool
volume_taken it w = it.path == w.path || it.name == w.path

abbrev pub merge_volumes : Option (List Volume) → Option (List Volume) → Option (List Volume)
merge_volumes = merge_lists volume_taken

abbrev pub merge_key_values :
    Option (List UniqueKeyValue) → Option (List UniqueKeyValue) → Option (List UniqueKeyValue)
merge_key_values = merge_unique_keys λ it. it.key

abbrev pub merge_keys : Option (List UniqueKey) → Option (List UniqueKey) → Option (List UniqueKey)
merge_keys = merge_unique_keys λ it. it.key

abbrev pub merge_secret_values :
    Option (List UniqueSecretKeyValue)
    → Option (List UniqueSecretKeyValue)
    → Option (List UniqueSecretKeyValue)
merge_secret_values = merge_unique_keys λ it. it.key
