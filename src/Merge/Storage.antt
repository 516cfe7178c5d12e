-- ===== src/Merge/Storage.antt =====
-- mergeStorage of domain/container-merge.ts, along a list of configurations.
use dyrectorio.Prelude.{
  Bool, true, false, Option, none, some, List, [], ◌∷◌, map, fold, is_some, ◌or_else◌, ◌≡◌, refl,
  sym, ◌∙◌, if◌then◌else◌, arith,
}
use dyrectorio.Container.{ContainerConfigData, StorageProperties, empty_config}
use dyrectorio.Merge.{merge_configs, squash_configs, merge_storage, no_storage}

-- The last storage of the list whose flag is set or unset.
abbrev pub last_flagged : List StorageProperties → Option StorageProperties
last_flagged [] = none
last_flagged (s ∷ rest) = last_flagged rest or_else (if is_some s.storage_set then some s else none)

-- A storage as it is used: its id and its configuration count only where its flag is true.
abbrev pub settled_by : Option Bool → StorageProperties → StorageProperties
settled_by (some true) s = record s { storage_set = some true }
settled_by (some false) s = no_storage
settled_by none s = no_storage

abbrev pub settled : StorageProperties → StorageProperties
settled s = settled_by s.storage_set s

abbrev pub settled_or_none : Option StorageProperties → StorageProperties
settled_or_none (some s) = settled s
settled_or_none none = no_storage

abbrev pub storage_of : ContainerConfigData → StorageProperties
storage_of c = c.body.storage

last_flagged_or : Option StorageProperties → StorageProperties → StorageProperties
last_flagged_or (some s) r = settled s
last_flagged_or none r = settled r

last_flagged_or-merge :
    (o : Option StorageProperties) (s r : StorageProperties)
    → last_flagged_or o (merge_storage s r)
      ≡ last_flagged_or (o or_else (if is_some s.storage_set then some s else none)) r
unfolding last_flagged_or merge_storage
last_flagged_or-merge (some x) s r = refl
last_flagged_or-merge none s r = ground arith

storage-fold :
    (configs : List ContainerConfigData) (result : ContainerConfigData)
    → settled (fold (λ r conf. merge_configs conf r) result configs).body.storage
      ≡ last_flagged_or (last_flagged (map storage_of configs)) result.body.storage
unfolding last_flagged_or merge_configs
storage-fold [] result = refl
storage-fold (c ∷ configs) result =
    storage-fold configs (merge_configs c result)
    ∙ last_flagged_or-merge (last_flagged (map storage_of configs)) c.body.storage
        result.body.storage

merge_storage-is_settled :
    (strong weak : StorageProperties)
    → settled (merge_storage strong weak) ≡ merge_storage strong weak
unfolding merge_storage
merge_storage-is_settled strong weak = ground arith

fold-settled :
    (configs : List ContainerConfigData) (result : ContainerConfigData)
    → settled result.body.storage ≡ result.body.storage
    → settled (fold (λ r conf. merge_configs conf r) result configs).body.storage
      ≡ (fold (λ r conf. merge_configs conf r) result configs).body.storage
unfolding merge_configs
fold-settled [] result h = h
fold-settled (c ∷ configs) result h =
    fold-settled configs (merge_configs c result)
      (merge_storage-is_settled c.body.storage result.body.storage)

last_flagged_or-none :
    (o : Option StorageProperties) → last_flagged_or o empty_config.body.storage ≡ settled_or_none o
unfolding last_flagged_or
last_flagged_or-none (some s) = refl
last_flagged_or-none none = refl

-- The storage of a list that is not empty comes whole from the last configuration whose flag is
-- set or unset: its id and configuration with the flag true, or no storage where it is unset.
-- Where no configuration has a flag, the flag of the result is false.
pub squash_configs-storage :
    (c : ContainerConfigData) (configs : List ContainerConfigData)
    → (squash_configs (c ∷ configs)).body.storage
      ≡ settled_or_none (last_flagged (map storage_of (c ∷ configs)))
unfolding squash_configs merge_configs merge_storage
squash_configs-storage c configs =
    sym (
      fold-settled configs (merge_configs c empty_config)
        (merge_storage-is_settled c.body.storage empty_config.body.storage))
    ∙ storage-fold (c ∷ configs) empty_config
    ∙ last_flagged_or-none (last_flagged (map storage_of (c ∷ configs)))
