-- ===== src/StartDeployment/Precedence.antt =====
-- Where the properties of the configuration of an instance come from, in a deployment that is not
-- deployed again (deploymentConfigOf and instanceConfigOf of domain/start-deployment.ts).
use dyrectorio.Prelude.{
  false, Option, none, some, List, [], ◌∷◌, map, ◌or_else◌, or_else_assoc, ◌≡◌, refl, ◌∙◌, ap,
  String, Bool-cases, inl, inr,
}
use dyrectorio.Json.{defined, defined-json_or, defined-json_or_null, token_eq}
use dyrectorio.Container.{
  ContainerConfigData, ConcreteContainerConfigData, ConfigBody, empty_config,
}
use dyrectorio.Merge.{
  present, squash_configs, merge_bodies, merge_configs, merge_configs_with_concrete_config,
}
use dyrectorio.Merge.Squash.{last_defined, get-squash, merge_number-or_else, merge_boolean-or_else}
use dyrectorio.Merge.Instance.{merge_instance_config_with_deployment_config}
use dyrectorio.StartDeployment.{
  DeployableDeployment, DeployableInstance, is_redeployment, deployment_config_of,
  instance_config_of, set_default_name, with_name, is_unnamed, name_of_instance,
}

pub present-map : (configs : List ContainerConfigData) → present (map some configs) ≡ configs
present-map [] = refl
present-map (c ∷ configs) = ap (λ cs. c ∷ cs) (present-map configs)

-- The default name leaves every other property as it is.
pub set_default_name-rest :
    {A : Type 0} (get : ConfigBody → A)
    → ((name : String) (c : ConcreteContainerConfigData) → get (with_name name c).body ≡ get c.body)
    → (i : DeployableInstance) (c : ConcreteContainerConfigData)
    → get (set_default_name i c).body ≡ get c.body
unfolding set_default_name
set_default_name-rest get same i c = elim (Bool-cases (is_unnamed c.body.common.name)) [
  | inl unnamed ↦ rw unnamed (same (name_of_instance i) c)
  | inr named ↦ rw named refl
]

module _ (deployment : DeployableDeployment) (inst : DeployableInstance) where
  -- The configuration that the instance is deployed with.
  abbrev pub deployed : ConcreteContainerConfigData
  deployed = instance_config_of deployment (deployment_config_of deployment) inst

  -- A property of `deployed` is the instance's, or else the one of the deployment, or else the one
  -- of the last bundle that has it, or else the one of the image.
  abbrev pub Precedence : {A : Type 0} → (ConfigBody → Option A) → Type 0
  Precedence get = get deployed.body ≡ (
      get inst.config.body
      or_else get deployment.config.body
      or_else last_defined (map (λ c. get c.body) deployment.config_bundles)
      or_else get inst.image_config.body)

  module _ {A : Type 0} (get : ConfigBody → Option A) (absent : get empty_config.body ≡ none)
      (get-merge : (strong weak : ConfigBody)
        → get (merge_bodies strong weak) ≡ (get strong or_else get weak))
      (get-configs : (strong weak : ContainerConfigData)
        → get (merge_configs strong weak).body ≡ (get strong.body or_else get weak.body))
      (get-instance : (d i : ConcreteContainerConfigData)
        → get (merge_instance_config_with_deployment_config d i).body
          ≡ (get i.body or_else get d.body))
      (get-name : (i : DeployableInstance) (c : ConcreteContainerConfigData)
        → get (set_default_name i c).body ≡ get c.body)
      (first : is_redeployment deployment ≡ false) where
    get-concrete :
        (configs : List (Option ContainerConfigData)) (concrete : ConcreteContainerConfigData)
        → get (merge_configs_with_concrete_config configs (some concrete)).body
          ≡ (get concrete.body or_else last_defined (map (λ c. get c.body) (present configs)))
    unfolding merge_configs_with_concrete_config
    get-concrete configs concrete =
        get-merge concrete.body (squash_configs (present configs)).body
        ∙ rw (get-squash (λ c. get c.body) absent get-configs (present configs)) refl

    get-deployment_config : get (deployment_config_of deployment).body ≡ (
        get deployment.config.body
        or_else last_defined (map (λ c. get c.body) deployment.config_bundles))
    unfolding deployment_config_of
    get-deployment_config = rw first (
        get-concrete (map some deployment.config_bundles) deployment.config
        ∙ rw (present-map deployment.config_bundles) refl)

    precedence : Precedence get
    unfolding instance_config_of
    precedence = rw first (
        get-name inst _
        ∙ get-instance _ inst.config
        ∙ rw
            (
              get-concrete (some inst.image_config ∷ []) (deployment_config_of deployment),
              get-deployment_config,
            )
            (ap (λ o. get inst.config.body or_else o)
              (or_else_assoc (get deployment.config.body)
                (last_defined (map (λ c. get c.body) deployment.config_bundles))
                (get inst.image_config.body))))

  -- In a deployment that is not deployed again, seventeen properties of an instance's configuration
  -- (routing, expose, user, working directory, tty, config container, init containers, log
  -- configuration, restart policy, network mode, expected state, deployment strategy, proxy headers,
  -- use of a load balancer, health check, resources and metrics) come from the first of these that
  -- has a value: the instance, the deployment, the last bundle that has one, the image.
  pub instance_config_of-Precedence :
      is_redeployment deployment ≡ false
      → Precedence (λ b. defined b.common.routing)
        × Precedence (λ b. b.common.expose)
        × Precedence (λ b. b.common.user)
        × Precedence (λ b. b.common.working_directory)
        × Precedence (λ b. b.common.tty)
        × Precedence (λ b. defined b.common.config_container)
        × Precedence (λ b. defined b.common.init_containers)
        × Precedence (λ b. b.dagent.log_config)
        × Precedence (λ b. b.dagent.restart_policy)
        × Precedence (λ b. b.dagent.network_mode)
        × Precedence (λ b. defined b.dagent.expected_state)
        × Precedence (λ b. b.crane.deployment_strategy)
        × Precedence (λ b. b.crane.proxy_headers)
        × Precedence (λ b. b.crane.use_load_balancer)
        × Precedence (λ b. defined b.crane.health_check_config)
        × Precedence (λ b. b.crane.resource_config)
        × Precedence (λ b. defined b.crane.metrics)
  unfolding merge_configs merge_instance_config_with_deployment_config
  instance_config_of-Precedence first = (
    precedence (λ b. defined b.common.routing) refl
        (λ x y. defined-json_or x.common.routing y.common.routing)
        (λ x y. defined-json_or x.body.common.routing y.body.common.routing)
        (λ d i. defined-json_or_null i.body.common.routing d.body.common.routing)
        (set_default_name-rest (λ b. defined b.common.routing) (λ n c. refl)) first,
    precedence (λ b. b.common.expose) refl (λ x y. refl) (λ x y. refl) (λ d i. refl)
        (set_default_name-rest (λ b. b.common.expose) (λ n c. refl)) first,
    precedence (λ b. b.common.user) refl (λ x y. merge_number-or_else _ _)
        (λ x y. merge_number-or_else _ _) (λ d i. merge_number-or_else _ _)
        (set_default_name-rest (λ b. b.common.user) (λ n c. refl)) first,
    precedence (λ b. b.common.working_directory) refl (λ x y. refl) (λ x y. refl) (λ d i. refl)
        (set_default_name-rest (λ b. b.common.working_directory) (λ n c. refl)) first,
    precedence (λ b. b.common.tty) refl (λ x y. merge_boolean-or_else _ _)
        (λ x y. merge_boolean-or_else _ _) (λ d i. merge_boolean-or_else _ _)
        (set_default_name-rest (λ b. b.common.tty) (λ n c. refl)) first,
    precedence (λ b. defined b.common.config_container) refl
        (λ x y. defined-json_or x.common.config_container y.common.config_container)
        (λ x y. defined-json_or x.body.common.config_container y.body.common.config_container)
        (λ d i. defined-json_or_null i.body.common.config_container d.body.common.config_container)
        (set_default_name-rest (λ b. defined b.common.config_container) (λ n c. refl)) first,
    precedence (λ b. defined b.common.init_containers) refl
        (λ x y. defined-json_or x.common.init_containers y.common.init_containers)
        (λ x y. defined-json_or x.body.common.init_containers y.body.common.init_containers)
        (λ d i. defined-json_or_null i.body.common.init_containers d.body.common.init_containers)
        (set_default_name-rest (λ b. defined b.common.init_containers) (λ n c. refl)) first,
    precedence (λ b. b.dagent.log_config) refl (λ x y. refl) (λ x y. refl) (λ d i. refl)
        (set_default_name-rest (λ b. b.dagent.log_config) (λ n c. refl)) first,
    precedence (λ b. b.dagent.restart_policy) refl (λ x y. refl) (λ x y. refl) (λ d i. refl)
        (set_default_name-rest (λ b. b.dagent.restart_policy) (λ n c. refl)) first,
    precedence (λ b. b.dagent.network_mode) refl (λ x y. refl) (λ x y. refl) (λ d i. refl)
        (set_default_name-rest (λ b. b.dagent.network_mode) (λ n c. refl)) first,
    precedence (λ b. defined b.dagent.expected_state) refl
        (λ x y. defined-json_or x.dagent.expected_state y.dagent.expected_state)
        (λ x y. defined-json_or x.body.dagent.expected_state y.body.dagent.expected_state)
        (λ d i. defined-json_or_null i.body.dagent.expected_state d.body.dagent.expected_state)
        (set_default_name-rest (λ b. defined b.dagent.expected_state) (λ n c. refl)) first,
    precedence (λ b. b.crane.deployment_strategy) refl (λ x y. refl) (λ x y. refl) (λ d i. refl)
        (set_default_name-rest (λ b. b.crane.deployment_strategy) (λ n c. refl)) first,
    precedence (λ b. b.crane.proxy_headers) refl (λ x y. merge_boolean-or_else _ _)
        (λ x y. merge_boolean-or_else _ _) (λ d i. merge_boolean-or_else _ _)
        (set_default_name-rest (λ b. b.crane.proxy_headers) (λ n c. refl)) first,
    precedence (λ b. b.crane.use_load_balancer) refl (λ x y. merge_boolean-or_else _ _)
        (λ x y. merge_boolean-or_else _ _) (λ d i. merge_boolean-or_else _ _)
        (set_default_name-rest (λ b. b.crane.use_load_balancer) (λ n c. refl)) first,
    precedence (λ b. defined b.crane.health_check_config) refl
        (λ x y. defined-json_or x.crane.health_check_config y.crane.health_check_config)
        (λ x y. defined-json_or x.body.crane.health_check_config y.body.crane.health_check_config)
        (λ d i.
          defined-json_or_null i.body.crane.health_check_config d.body.crane.health_check_config)
        (set_default_name-rest (λ b. defined b.crane.health_check_config) (λ n c. refl)) first,
    precedence (λ b. b.crane.resource_config) refl (λ x y. refl) (λ x y. refl) (λ d i. refl)
        (set_default_name-rest (λ b. b.crane.resource_config) (λ n c. refl)) first,
    precedence (λ b. defined b.crane.metrics) refl
        (λ x y. defined-json_or x.crane.metrics y.crane.metrics)
        (λ x y. defined-json_or x.body.crane.metrics y.body.crane.metrics)
        (λ d i. defined-json_or_null i.body.crane.metrics d.body.crane.metrics)
        (set_default_name-rest (λ b. defined b.crane.metrics) (λ n c. refl)) first,
  )
