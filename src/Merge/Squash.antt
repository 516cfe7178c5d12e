-- ===== src/Merge/Squash.antt =====
-- squashConfigs of domain/container-merge.ts: the last configuration that has a value decides.
use dyrectorio.Prelude.{
  ℤ, Bool, Option, none, some, List, [], ◌∷◌, map, fold, ◌or_else◌, or_else_assoc, or_else-none,
  ◌≡◌, refl, ◌∙◌,
}
use dyrectorio.Json.{defined, defined-json_or, token_eq}
use dyrectorio.Container.{ContainerConfigData, empty_config}
use dyrectorio.Merge.{merge_configs, squash_configs, merge_number, merge_boolean}

abbrev pub last_defined {ℓ} : {A : Type ℓ} → List (Option A) → Option A
last_defined [] = none
last_defined (x ∷ xs) = last_defined xs or_else x

module _ {A : Type 0} (get : ContainerConfigData → Option A)
    (get-merge : (strong weak : ContainerConfigData)
      → get (merge_configs strong weak) ≡ (get strong or_else get weak)) where
  get-fold :
      (configs : List ContainerConfigData) (result : ContainerConfigData)
      → get (fold (λ r conf. merge_configs conf r) result configs)
        ≡ (last_defined (map get configs) or_else get result)
  get-fold [] result = refl
  get-fold (c ∷ configs) result =
      get-fold configs (merge_configs c result)
      ∙ rw (get-merge c result, or_else_assoc (last_defined (map get configs)) (get c) (get result))
          refl

-- What a squashed configuration has at a property is the last value of the list.
abbrev pub LastWins :
    {A : Type 0} → List ContainerConfigData → (ContainerConfigData → Option A) → Type 0
LastWins configs get = get (squash_configs configs) ≡ last_defined (map get configs)

pub get-squash :
    {A : Type 0} (get : ContainerConfigData → Option A)
    → get empty_config ≡ none
    → ((strong weak : ContainerConfigData)
        → get (merge_configs strong weak) ≡ (get strong or_else get weak))
    → (configs : List ContainerConfigData) → LastWins configs get
unfolding squash_configs
get-squash get absent get-merge configs =
    get-fold get get-merge configs empty_config
    ∙ rw (absent, or_else-none (last_defined (map get configs))) refl

pub merge_number-or_else : (a b : Option ℤ) → merge_number a b ≡ (a or_else b)
merge_number-or_else (some a) b = refl
merge_number-or_else none (some b) = refl
merge_number-or_else none none = refl

pub merge_boolean-or_else : (a b : Option Bool) → merge_boolean a b ≡ (a or_else b)
merge_boolean-or_else (some a) b = refl
merge_boolean-or_else none (some b) = refl
merge_boolean-or_else none none = refl

module _ (configs : List ContainerConfigData) where
  -- Each plain property of the squashed configuration comes from the last configuration of the
  -- list that has it: the properties under `common`, without the capabilities.
  pub squash_configs-common :
      LastWins configs (λ c. c.body.common.name)
      × LastWins configs (λ c. c.body.common.environment)
      × LastWins configs (λ c. defined c.body.common.routing)
      × LastWins configs (λ c. c.body.common.expose)
      × LastWins configs (λ c. c.body.common.user)
      × LastWins configs (λ c. c.body.common.working_directory)
      × LastWins configs (λ c. c.body.common.tty)
      × LastWins configs (λ c. defined c.body.common.config_container)
      × LastWins configs (λ c. c.body.common.ports)
      × LastWins configs (λ c. c.body.common.port_ranges)
      × LastWins configs (λ c. c.body.common.volumes)
      × LastWins configs (λ c. c.body.common.commands)
      × LastWins configs (λ c. c.body.common.args)
      × LastWins configs (λ c. defined c.body.common.init_containers)
  unfolding merge_configs
  squash_configs-common = (
    get-squash (λ c. c.body.common.name) refl (λ s w. refl) configs,
    get-squash (λ c. c.body.common.environment) refl (λ s w. refl) configs,
    get-squash (λ c. defined c.body.common.routing) refl
        (λ s w. defined-json_or s.body.common.routing w.body.common.routing) configs,
    get-squash (λ c. c.body.common.expose) refl (λ s w. refl) configs,
    get-squash (λ c. c.body.common.user) refl (λ s w. merge_number-or_else _ _) configs,
    get-squash (λ c. c.body.common.working_directory) refl (λ s w. refl) configs,
    get-squash (λ c. c.body.common.tty) refl (λ s w. merge_boolean-or_else _ _) configs,
    get-squash (λ c. defined c.body.common.config_container) refl
        (λ s w. defined-json_or s.body.common.config_container w.body.common.config_container)
        configs,
    get-squash (λ c. c.body.common.ports) refl (λ s w. refl) configs,
    get-squash (λ c. c.body.common.port_ranges) refl (λ s w. refl) configs,
    get-squash (λ c. c.body.common.volumes) refl (λ s w. refl) configs,
    get-squash (λ c. c.body.common.commands) refl (λ s w. refl) configs,
    get-squash (λ c. c.body.common.args) refl (λ s w. refl) configs,
    get-squash (λ c. defined c.body.common.init_containers) refl
        (λ s w. defined-json_or s.body.common.init_containers w.body.common.init_containers)
        configs,
  )

  -- Each property under `dagent`, and each under `crane` but the labels and the annotations, comes
  -- from the last configuration of the list that has it.
  pub squash_configs-platform :
      LastWins configs (λ c. c.body.dagent.log_config)
      × LastWins configs (λ c. c.body.dagent.restart_policy)
      × LastWins configs (λ c. c.body.dagent.network_mode)
      × LastWins configs (λ c. c.body.dagent.networks)
      × LastWins configs (λ c. c.body.dagent.docker_labels)
      × LastWins configs (λ c. defined c.body.dagent.expected_state)
      × LastWins configs (λ c. c.body.crane.deployment_strategy)
      × LastWins configs (λ c. c.body.crane.custom_headers)
      × LastWins configs (λ c. c.body.crane.proxy_headers)
      × LastWins configs (λ c. c.body.crane.use_load_balancer)
      × LastWins configs (λ c. c.body.crane.extra_lb_annotations)
      × LastWins configs (λ c. defined c.body.crane.health_check_config)
      × LastWins configs (λ c. c.body.crane.resource_config)
      × LastWins configs (λ c. defined c.body.crane.metrics)
  unfolding merge_configs
  squash_configs-platform = (
    get-squash (λ c. c.body.dagent.log_config) refl (λ s w. refl) configs,
    get-squash (λ c. c.body.dagent.restart_policy) refl (λ s w. refl) configs,
    get-squash (λ c. c.body.dagent.network_mode) refl (λ s w. refl) configs,
    get-squash (λ c. c.body.dagent.networks) refl (λ s w. refl) configs,
    get-squash (λ c. c.body.dagent.docker_labels) refl (λ s w. refl) configs,
    get-squash (λ c. defined c.body.dagent.expected_state) refl
        (λ s w. defined-json_or s.body.dagent.expected_state w.body.dagent.expected_state) configs,
    get-squash (λ c. c.body.crane.deployment_strategy) refl (λ s w. refl) configs,
    get-squash (λ c. c.body.crane.custom_headers) refl (λ s w. refl) configs,
    get-squash (λ c. c.body.crane.proxy_headers) refl (λ s w. merge_boolean-or_else _ _) configs,
    get-squash (λ c. c.body.crane.use_load_balancer) refl (λ s w. merge_boolean-or_else _ _)
        configs,
    get-squash (λ c. c.body.crane.extra_lb_annotations) refl (λ s w. refl) configs,
    get-squash (λ c. defined c.body.crane.health_check_config) refl
        (λ s w. defined-json_or s.body.crane.health_check_config w.body.crane.health_check_config)
        configs,
    get-squash (λ c. c.body.crane.resource_config) refl (λ s w. refl) configs,
    get-squash (λ c. defined c.body.crane.metrics) refl
        (λ s w. defined-json_or s.body.crane.metrics w.body.crane.metrics) configs,
  )
