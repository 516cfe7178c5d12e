-- ===== src/Merge/Override.antt =====
-- mergeInstanceConfigWithDeploymentConfig of domain/container-merge.ts: which side gives an item.
use dyrectorio.Prelude.{
  Bool, ◌&&◌, ◌||◌, leb, arith, ℕ, String, Option, List, find, ◌==◌, string_eq, nat_eq, ◌or_else◌,
  items, ◌≡◌, true,
}
use dyrectorio.Container.{ConcreteContainerConfigData, PortRange, ContainerPortRange}
use dyrectorio.Conflict.{ranges_overlap}
use dyrectorio.Merge.Lists.{range_taken}
use dyrectorio.Merge.Instance.{merge_instance_config_with_deployment_config}
use dyrectorio.Merge.Ranges.{all_apart, merge_lists_apart}

-- Read by `key`, the merged list `m` has what `strong` has, and else what `weak` has.
abbrev pub Overrides :
    {A : Type 0}
    → (A → String)
    → String
    → Option (List A)
    → Option (List A)
    → Option (List A)
    → Type 0
Overrides key k m strong weak =
    find (λ it. key it == k) (items m)
    ≡ (find (λ it. key it == k) (items strong) or_else find (λ it. key it == k) (items weak))

module _ (deployment inst : ConcreteContainerConfigData) where
  abbrev pub merged : ConcreteContainerConfigData
  merged = merge_instance_config_with_deployment_config deployment inst

abbrev pub has_port : ℕ → PortRange → Bool
has_port n range = leb range.from n && leb n range.to

-- Both have the port inside, or both have it outside.
abbrev pub share_port : ℕ → ContainerPortRange → ContainerPortRange → Bool
share_port n it w =
    (has_port n it.internal && has_port n w.internal)
    || (has_port n it.external && has_port n w.external)

range_taken_of_port :
    (n : ℕ) (it w : ContainerPortRange) → share_port n it w ≡ true → range_taken it w ≡ true
unfolding ranges_overlap
range_taken_of_port n it w h = ground arith

-- If no two port ranges of the instance have a port in common, neither inside nor outside, and no two
-- of the deployment do, then no two of the merged configuration do.
pub merge_instance-port_ranges_apart :
    (n : ℕ) (deployment inst : ConcreteContainerConfigData)
    → all_apart (share_port n) (items inst.body.common.port_ranges) ≡ true
    → all_apart (share_port n) (items deployment.body.common.port_ranges) ≡ true
    → all_apart (share_port n) (items (merged deployment inst).body.common.port_ranges) ≡ true
unfolding merge_instance_config_with_deployment_config
merge_instance-port_ranges_apart n deployment inst h k =
    merge_lists_apart (share_port n) range_taken (range_taken_of_port n)
      inst.body.common.port_ranges deployment.body.common.port_ranges h k
