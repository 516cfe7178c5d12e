-- ===== src/Conflict/Keyed.antt =====
-- What checkForConflicts of domain/container-conflict.ts records for the properties that are lists
-- of keyed items.
use dyrectorio.Prelude.{
  String, Bool, ◌&&◌, ◌||◌, Option, none, some, List, [], ◌∷◌, fold, any, any-map, contains,
  fold-project, items, Eq, ◌==◌, string_eq, nat_eq, ◌≡◌, refl, ◌∙◌, ap, arith, Bool-cases, inl, inr,
}
use dyrectorio.Container.{ContainerConfigDataWithId}
use dyrectorio.Conflict.{ConflictedItem, ConflictedContainerConfigData, range_eq}
use dyrectorio.Conflict.Ids.{contains-append_conflict}
use dyrectorio.Conflict.Append.{record_conflict, append_keys_if}
use dyrectorio.Conflict.Values.{
  unique_key_values_conflict, ports_conflict, port_ranges_conflict, volumes_conflict,
}
use dyrectorio.Conflict.Collect.{collect_conflicts}
use dyrectorio.Conflict.Check.{all_conflicts, no_conflicts, ordered_pairs}

module _ {K : Type 0} ⦃e : Eq K⦄ (k : K) (i : String) where
  -- The id is recorded under the key.
  abbrev pub under : ConflictedItem K → Bool
  under it = it.item == k && contains it.config_ids i

  under-record_conflict :
      (a b : String) (conflicts : List (ConflictedItem K)) (key : K)
      → any under (record_conflict a b conflicts key)
        ≡ (any under conflicts || (key == k && (a == i || b == i)))
  unfolding record_conflict
  under-record_conflict a b [] key = ground arith
  under-record_conflict a b (c ∷ conflicts) key = elim (Bool-cases (c.item == key)) [
    | inl same ↦
        let here : c.item ≡ key = (e.beq_iff c.item key).0 same in
        rw (same, here) (ground (arith, contains-append_conflict (some c.config_ids) a b i))
    | inr other ↦ rw other (ground (arith, under-record_conflict a b conflicts key))
  ]

  under-fold :
      (a b : String) (keys : List K) (conflicts : List (ConflictedItem K))
      → any under (fold (record_conflict a b) conflicts keys)
        ≡ (any under conflicts || (contains keys k && (a == i || b == i)))
  under-fold a b [] conflicts = ground arith
  under-fold a b (key ∷ keys) conflicts =
      under-fold a b keys (record_conflict a b conflicts key)
      ∙ ground (arith, under-record_conflict a b conflicts key)

  under-fresh :
      (a b : String) (keys : List K)
      → any (λ key. key == k && contains (a ∷ b ∷ []) i) keys
        ≡ (contains keys k && (a == i || b == i))
  under-fresh a b [] = refl
  under-fresh a b (key ∷ keys) = ground (arith, under-fresh a b keys)

  under-append_keys_if :
      (keys : Option (List K)) (conflicts : Option (List (ConflictedItem K))) (a b : String)
      → any under (items (append_keys_if keys conflicts a b))
        ≡ (any under (items conflicts) || (contains (items keys) k && (a == i || b == i)))
  unfolding append_keys_if
  under-append_keys_if none conflicts a b = ground arith
  under-append_keys_if (some keys) none a b = any-map under _ keys ∙ under-fresh a b keys
  under-append_keys_if (some keys) (some conflicts) a b = under-fold a b keys conflicts

abbrev Config : Type 0
Config = ContainerConfigDataWithId

-- An id is recorded under a key exactly when some pair of different positions, of which one has the
-- id, gives the key.
abbrev pub ReportsKeys :
    {K : Type 0} ⦃e : Eq K⦄
    → List Config
    → (Config → Config → Option (List K))
    → Option (List (ConflictedItem K))
    → Type 0
ReportsKeys {K} configs keys_of r =
    (k : K) (i : String)
    → any (under k i) (items r)
      ≡ any (λ p. contains (items (keys_of p.0 p.1)) k && (p.0.id == i || p.1.id == i))
          (ordered_pairs configs)

module _ {K : Type 0} ⦃e : Eq K⦄ (keys_of : Config → Config → Option (List K))
    (get : ConflictedContainerConfigData → Option (List (ConflictedItem K)))
    (get-collect : (conflicts : ConflictedContainerConfigData) (p : Config × Config)
      → get (collect_conflicts p.0 p.1 conflicts)
        ≡ append_keys_if (keys_of p.0 p.1) (get conflicts) p.0.id p.1.id)
    (absent : get no_conflicts ≡ none) where
  abbrev step :
      Option (List (ConflictedItem K)) → Config × Config → Option (List (ConflictedItem K))
  step r p = append_keys_if (keys_of p.0 p.1) r p.0.id p.1.id

  under-steps :
      (k : K) (i : String) (pairs : List (Config × Config)) (r : Option (List (ConflictedItem K)))
      → any (under k i) (items (fold step r pairs)) ≡ (
          any (under k i) (items r)
          || any (λ p. contains (items (keys_of p.0 p.1)) k && (p.0.id == i || p.1.id == i)) pairs)
  under-steps k i [] r = ground arith
  under-steps k i (p ∷ pairs) r =
      under-steps k i pairs (step r p)
      ∙ ground (arith, under-append_keys_if k i (keys_of p.0 p.1) r p.0.id p.1.id)

  pub reports_keys :
      (configs : List Config) → ReportsKeys configs keys_of (get (all_conflicts configs))
  unfolding all_conflicts
  reports_keys configs k i =
      ap (λ r. any (under k i) (items r))
        (fold-project get (λ conflicts pair. collect_conflicts pair.0 pair.1 conflicts) step
          get-collect no_conflicts (ordered_pairs configs))
      ∙ under-steps k i (ordered_pairs configs) (get no_conflicts)
      ∙ rw absent refl

module _ (configs : List Config) where
  -- For the environment, the capabilities, the docker labels, the load balancer annotations, the
  -- ports, the port ranges and the volumes: an id is recorded under a key exactly when the
  -- comparison of two configurations at different positions, one of which has the id, gives the key.
  pub all_conflicts-ReportsKeys :
      ReportsKeys configs
        (λ a b.
          unique_key_values_conflict a.config.body.common.environment
            b.config.body.common.environment)
        (all_conflicts configs).common.environment
      × ReportsKeys configs
          (λ a b.
            unique_key_values_conflict a.config.body.common.capabilities
              b.config.body.common.capabilities)
          (all_conflicts configs).common.capabilities
      × ReportsKeys configs
          (λ a b.
            unique_key_values_conflict a.config.body.dagent.docker_labels
              b.config.body.dagent.docker_labels)
          (all_conflicts configs).dagent.docker_labels
      × ReportsKeys configs
          (λ a b.
            unique_key_values_conflict a.config.body.crane.extra_lb_annotations
              b.config.body.crane.extra_lb_annotations)
          (all_conflicts configs).crane.extra_lb_annotations
      × ReportsKeys configs
          (λ a b. ports_conflict a.config.body.common.ports b.config.body.common.ports)
          (all_conflicts configs).common.ports
      × ReportsKeys configs
          (λ a b.
            port_ranges_conflict a.config.body.common.port_ranges b.config.body.common.port_ranges)
          (all_conflicts configs).common.port_ranges
      × ReportsKeys configs
          (λ a b. volumes_conflict a.config.body.common.volumes b.config.body.common.volumes)
          (all_conflicts configs).common.volumes
  unfolding collect_conflicts
  all_conflicts-ReportsKeys = (
    reports_keys
        (λ a b.
          unique_key_values_conflict a.config.body.common.environment
            b.config.body.common.environment)
        (λ r. r.common.environment) (λ r p. refl) refl configs,
    reports_keys
        (λ a b.
          unique_key_values_conflict a.config.body.common.capabilities
            b.config.body.common.capabilities)
        (λ r. r.common.capabilities) (λ r p. refl) refl configs,
    reports_keys
        (λ a b.
          unique_key_values_conflict a.config.body.dagent.docker_labels
            b.config.body.dagent.docker_labels)
        (λ r. r.dagent.docker_labels) (λ r p. refl) refl configs,
    reports_keys
        (λ a b.
          unique_key_values_conflict a.config.body.crane.extra_lb_annotations
            b.config.body.crane.extra_lb_annotations)
        (λ r. r.crane.extra_lb_annotations) (λ r p. refl) refl configs,
    reports_keys (λ a b. ports_conflict a.config.body.common.ports b.config.body.common.ports)
        (λ r. r.common.ports) (λ r p. refl) refl configs,
    reports_keys
        (λ a b.
          port_ranges_conflict a.config.body.common.port_ranges b.config.body.common.port_ranges)
        (λ r. r.common.port_ranges) (λ r p. refl) refl configs,
    reports_keys (λ a b. volumes_conflict a.config.body.common.volumes b.config.body.common.volumes)
        (λ r. r.common.volumes) (λ r p. refl) refl configs,
  )
