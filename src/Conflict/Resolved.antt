-- ===== src/Conflict/Resolved.antt =====
-- getConflictsForConcreteConfig of domain/container-conflict.ts: a property that the concrete
-- configuration defines is not reported.
use dyrectorio.Prelude.{
  String, true, false, ◌&&◌, Option, none, some, List, map, any, any-append, any-map, any-false,
  or-true, is_some, contains, get_or, Bool-cases, inl, inr, Eq, ◌==◌, string_eq, int_eq, bool_eq,
  list_eq, ◌≡◌, refl, ◌∙◌, arith,
}
use dyrectorio.Json.{defined, token_eq}
use dyrectorio.Container.{ContainerConfigDataWithId, ConcreteContainerConfigData}
use dyrectorio.Conflict.{ConflictedContainerConfigData}
use dyrectorio.Conflict.Check.{
  all_conflicts, no_conflicts, has_conflicts, check_for_conflicts, delete_defined, defined_keys_of,
  key_of, get_conflicts_for_concrete_config,
}
use dyrectorio.Conflict.Reports.{Reports}
use dyrectorio.Conflict.Compared.{all_conflicts-Reports}

contains-key_of :
    {A : Type 0} (key k : String) (value : Option A)
    → any (λ x. x == k) (key_of key value) ≡ (is_some value && key == k)
contains-key_of key k none = refl
contains-key_of key k (some v) = ground arith

-- What the check finds; nothing, if it returns `null`.
abbrev pub found :
    List ContainerConfigDataWithId → ConcreteContainerConfigData → ConflictedContainerConfigData
found configs concrete = get_or (get_conflicts_for_concrete_config configs concrete) no_conflicts

module _ (concrete : ConcreteContainerConfigData) (configs : List ContainerConfigDataWithId) where
  abbrev stripped : List ContainerConfigDataWithId
  stripped = map (delete_defined (defined_keys_of concrete)) configs

  -- A property that is deleted from every configuration is reported by none.
  unreported :
      {A : Type 0} ⦃e : Eq A⦄ (get : ContainerConfigDataWithId → Option A)
      (ids : Option (List String))
      → Reports stripped get ids
      → ((c : ContainerConfigDataWithId) → get (delete_defined (defined_keys_of concrete) c) ≡ none)
      → is_some ids ≡ false
  unreported get ids (_, some_iff) gone =
      some_iff
      ∙ any-map _ (delete_defined (defined_keys_of concrete)) configs
      ∙ any-false _ configs (λ c. rw (gone c) (any-false _ stripped (λ d. refl)))

  found-field :
      {A : Type 0} (get : ConflictedContainerConfigData → Option A)
      → get no_conflicts ≡ none
      → is_some (get (all_conflicts stripped)) ≡ false
      → is_some (get (found configs concrete)) ≡ false
  unfolding get_conflicts_for_concrete_config check_for_conflicts
  found-field get absent h = elim (Bool-cases (has_conflicts (all_conflicts stripped))) [
    | inl some_found ↦ rw some_found h
    | inr none_found ↦ rw (none_found, absent) refl
  ]

  resolved :
      {A B : Type 0} ⦃e : Eq A⦄ (key : String) (value : Option B)
      (get : ContainerConfigDataWithId → Option A)
      (ids : ConflictedContainerConfigData → Option (List String))
      → ids no_conflicts ≡ none
      → Reports stripped get (ids (all_conflicts stripped))
      → (is_some value ≡ true → contains (defined_keys_of concrete) key ≡ true)
      → ((c : ContainerConfigDataWithId)
          → contains (defined_keys_of concrete) key ≡ true
          → get (delete_defined (defined_keys_of concrete) c) ≡ none)
      → (is_some value && is_some (ids (found configs concrete))) ≡ false
  resolved key value get ids absent reported defined gone = elim (Bool-cases (is_some value)) [
    | inl has ↦ rw has (
        found-field ids absent
          (unreported get (ids (all_conflicts stripped)) reported (λ c. gone c (defined has))))
    | inr has_not ↦ rw has_not refl
  ]

  -- Of the fifteen properties that are compared whole, none is reported that the concrete
  -- configuration defines.
  pub get_conflicts-resolved :
      ((is_some concrete.body.common.name && is_some (found configs concrete).common.name) ≡ false)
      × ((is_some (defined concrete.body.common.routing)
            && is_some (found configs concrete).common.routing)
          ≡ false)
      × ((is_some concrete.body.common.expose && is_some (found configs concrete).common.expose)
          ≡ false)
      × ((is_some concrete.body.common.user && is_some (found configs concrete).common.user)
          ≡ false)
      × ((is_some concrete.body.common.working_directory
            && is_some (found configs concrete).common.working_directory)
          ≡ false)
      × ((is_some concrete.body.common.tty && is_some (found configs concrete).common.tty) ≡ false)
      × ((is_some (defined concrete.body.common.config_container)
            && is_some (found configs concrete).common.config_container)
          ≡ false)
      × ((is_some (defined concrete.body.common.init_containers)
            && is_some (found configs concrete).common.init_containers)
          ≡ false)
      × ((is_some concrete.body.dagent.restart_policy
            && is_some (found configs concrete).dagent.restart_policy)
          ≡ false)
      × ((is_some concrete.body.dagent.network_mode
            && is_some (found configs concrete).dagent.network_mode)
          ≡ false)
      × ((is_some concrete.body.crane.deployment_strategy
            && is_some (found configs concrete).crane.deployment_strategy)
          ≡ false)
      × ((is_some concrete.body.crane.proxy_headers
            && is_some (found configs concrete).crane.proxy_headers)
          ≡ false)
      × ((is_some concrete.body.crane.use_load_balancer
            && is_some (found configs concrete).crane.use_load_balancer)
          ≡ false)
      × ((is_some (defined concrete.body.crane.health_check_config)
            && is_some (found configs concrete).crane.health_check_config)
          ≡ false)
      × ((is_some (defined concrete.body.crane.metrics)
            && is_some (found configs concrete).crane.metrics)
          ≡ false)
  unfolding delete_defined defined_keys_of
  get_conflicts-resolved =
      let r = all_conflicts-Reports stripped in
      (
        resolved "name" concrete.body.common.name (λ c. c.config.body.common.name)
            (λ x. x.common.name) refl r.0 (λ h. simp (any-append, contains-key_of, h))
            (λ c h. rw h refl),
        resolved "routing" (defined concrete.body.common.routing)
            (λ c. c.config.body.common.routing) (λ x. x.common.routing) refl r.1
            (λ h. simp (any-append, contains-key_of, h, or-true)) (λ c h. rw h refl),
        resolved "expose" concrete.body.common.expose (λ c. c.config.body.common.expose)
            (λ x. x.common.expose) refl r.2 (λ h. simp (any-append, contains-key_of, h, or-true))
            (λ c h. rw h refl),
        resolved "user" concrete.body.common.user (λ c. c.config.body.common.user)
            (λ x. x.common.user) refl r.3 (λ h. simp (any-append, contains-key_of, h, or-true))
            (λ c h. rw h refl),
        resolved "workingDirectory" concrete.body.common.working_directory
            (λ c. c.config.body.common.working_directory) (λ x. x.common.working_directory) refl r.4
            (λ h. simp (any-append, contains-key_of, h, or-true)) (λ c h. rw h refl),
        resolved "tty" concrete.body.common.tty (λ c. c.config.body.common.tty) (λ x. x.common.tty)
            refl r.5 (λ h. simp (any-append, contains-key_of, h, or-true)) (λ c h. rw h refl),
        resolved "configContainer" (defined concrete.body.common.config_container)
            (λ c. c.config.body.common.config_container) (λ x. x.common.config_container) refl r.6
            (λ h. simp (any-append, contains-key_of, h, or-true)) (λ c h. rw h refl),
        resolved "initContainers" (defined concrete.body.common.init_containers)
            (λ c. c.config.body.common.init_containers) (λ x. x.common.init_containers) refl r.7
            (λ h. simp (any-append, contains-key_of, h, or-true)) (λ c h. rw h refl),
        resolved "restartPolicy" concrete.body.dagent.restart_policy
            (λ c. c.config.body.dagent.restart_policy) (λ x. x.dagent.restart_policy) refl r.8
            (λ h. simp (any-append, contains-key_of, h, or-true)) (λ c h. rw h refl),
        resolved "networkMode" concrete.body.dagent.network_mode
            (λ c. c.config.body.dagent.network_mode) (λ x. x.dagent.network_mode) refl r.9
            (λ h. simp (any-append, contains-key_of, h, or-true)) (λ c h. rw h refl),
        resolved "deploymentStrategy" concrete.body.crane.deployment_strategy
            (λ c. c.config.body.crane.deployment_strategy) (λ x. x.crane.deployment_strategy) refl
            r.10 (λ h. simp (any-append, contains-key_of, h, or-true)) (λ c h. rw h refl),
        resolved "proxyHeaders" concrete.body.crane.proxy_headers
            (λ c. c.config.body.crane.proxy_headers) (λ x. x.crane.proxy_headers) refl r.11
            (λ h. simp (any-append, contains-key_of, h, or-true)) (λ c h. rw h refl),
        resolved "useLoadBalancer" concrete.body.crane.use_load_balancer
            (λ c. c.config.body.crane.use_load_balancer) (λ x. x.crane.use_load_balancer) refl r.12
            (λ h. simp (any-append, contains-key_of, h, or-true)) (λ c h. rw h refl),
        resolved "healthCheckConfig" (defined concrete.body.crane.health_check_config)
            (λ c. c.config.body.crane.health_check_config) (λ x. x.crane.health_check_config) refl
            r.13 (λ h. simp (any-append, contains-key_of, h, or-true)) (λ c h. rw h refl),
        resolved "metrics" (defined concrete.body.crane.metrics) (λ c. c.config.body.crane.metrics)
            (λ x. x.crane.metrics) refl r.14 (λ h. simp (any-append, contains-key_of, h, or-true))
            (λ c h. rw h refl),
      )
