-- ===== src/Conflict/Check.antt =====
-- checkForConflicts and getConflictsForConcreteConfig of domain/container-conflict.ts.
use dyrectorio.Prelude.{
  String, Bool, Option, none, some, List, [], ◌∷◌, ◌++◌, map, fold, contains, string_eq,
  if◌then◌else◌, is_some, ◌||◌,
}
use dyrectorio.Json.{defined, token_eq}
use dyrectorio.Container.{
  StorageProperties, CommonConfig, DagentConfig, CraneConfig, ContainerConfigDataWithId,
  ConcreteContainerConfigData,
}
use dyrectorio.Conflict.{
  ConflictedCommon, ConflictedDagent, ConflictedCrane, ConflictedContainerConfigData,
}
use dyrectorio.Conflict.Collect.{collect_conflicts}

-- `delete newConf[prop]` for a defined key
abbrev pub delete_if {ℓ} : {A : Type ℓ} → List String → String → Option A → Option A
delete_if defined_keys key value = if contains defined_keys key then none else value

module _ (defined_keys : List String) where
  unfoldable pub delete_common : CommonConfig → CommonConfig
  delete_common c = record {
    name = delete_if defined_keys "name" c.name;
    environment = delete_if defined_keys "environment" c.environment;
    routing = delete_if defined_keys "routing" c.routing;
    expose = delete_if defined_keys "expose" c.expose;
    user = delete_if defined_keys "user" c.user;
    working_directory = delete_if defined_keys "workingDirectory" c.working_directory;
    tty = delete_if defined_keys "tty" c.tty;
    config_container = delete_if defined_keys "configContainer" c.config_container;
    ports = delete_if defined_keys "ports" c.ports;
    port_ranges = delete_if defined_keys "portRanges" c.port_ranges;
    volumes = delete_if defined_keys "volumes" c.volumes;
    commands = delete_if defined_keys "commands" c.commands;
    args = delete_if defined_keys "args" c.args;
    init_containers = delete_if defined_keys "initContainers" c.init_containers;
    capabilities = delete_if defined_keys "capabilities" c.capabilities;
  }

  unfoldable pub delete_storage : StorageProperties → StorageProperties
  delete_storage s = record {
    storage_set = delete_if defined_keys "storageSet" s.storage_set;
    storage_id = delete_if defined_keys "storageId" s.storage_id;
    storage_config = delete_if defined_keys "storageConfig" s.storage_config;
  }

  unfoldable pub delete_dagent : DagentConfig → DagentConfig
  delete_dagent d = record {
    log_config = delete_if defined_keys "logConfig" d.log_config;
    restart_policy = delete_if defined_keys "restartPolicy" d.restart_policy;
    network_mode = delete_if defined_keys "networkMode" d.network_mode;
    networks = delete_if defined_keys "networks" d.networks;
    docker_labels = delete_if defined_keys "dockerLabels" d.docker_labels;
    expected_state = delete_if defined_keys "expectedState" d.expected_state;
  }

  unfoldable pub delete_crane : CraneConfig → CraneConfig
  delete_crane c = record {
    deployment_strategy = delete_if defined_keys "deploymentStrategy" c.deployment_strategy;
    custom_headers = delete_if defined_keys "customHeaders" c.custom_headers;
    proxy_headers = delete_if defined_keys "proxyHeaders" c.proxy_headers;
    use_load_balancer = delete_if defined_keys "useLoadBalancer" c.use_load_balancer;
    extra_lb_annotations = delete_if defined_keys "extraLBAnnotations" c.extra_lb_annotations;
    health_check_config = delete_if defined_keys "healthCheckConfig" c.health_check_config;
    resource_config = delete_if defined_keys "resourceConfig" c.resource_config;
    annotations = delete_if defined_keys "annotations" c.annotations;
    labels = delete_if defined_keys "labels" c.labels;
    metrics = delete_if defined_keys "metrics" c.metrics;
  }

  -- The copies of the configurations, without the defined keys. The id is no key of theirs.
  unfoldable pub delete_defined : ContainerConfigDataWithId → ContainerConfigDataWithId
  unfolding delete_common delete_storage delete_dagent delete_crane
  delete_defined conf =
      let body = conf.config.body in
      record {
        id = conf.id;
        config = record {
          body = record {
            common = delete_common body.common;
            storage = delete_storage body.storage;
            dagent = delete_dagent body.dagent;
            crane = delete_crane body.crane;
          };
          secrets = delete_if defined_keys "secrets" conf.config.secrets;
        };
      }

-- `configs.filter(it => it !== one)` for each `one`, in order. The copies are distinct objects, so
-- the others are those at the other positions.
abbrev pub pairs_from {ℓ} : {A : Type ℓ} → List A → List A → List (A × A)
pairs_from before [] = []
pairs_from before (one ∷ after) =
    map (λ other. (one, other)) (before ++ after) ++ pairs_from (before ++ one ∷ []) after

abbrev pub ordered_pairs {ℓ} : {A : Type ℓ} → List A → List (A × A)
ordered_pairs configs = pairs_from [] configs

abbrev pub no_conflicts : ConflictedContainerConfigData
no_conflicts = record {
  common = record {
    name = none;
    environment = none;
    routing = none;
    expose = none;
    user = none;
    working_directory = none;
    tty = none;
    config_container = none;
    ports = none;
    port_ranges = none;
    volumes = none;
    init_containers = none;
    capabilities = none;
    storage = none;
  };
  dagent = record {
    log_config = none;
    restart_policy = none;
    network_mode = none;
    docker_labels = none;
    expected_state = none;
  };
  crane = record {
    deployment_strategy = none;
    proxy_headers = none;
    use_load_balancer = none;
    extra_lb_annotations = none;
    health_check_config = none;
    resource_config = none;
    annotations = none;
    labels = none;
    metrics = none;
  };
}

abbrev has_common : ConflictedCommon → Bool
has_common c =
    is_some c.name
    || is_some c.environment
    || is_some c.routing
    || is_some c.expose
    || is_some c.user
    || is_some c.working_directory
    || is_some c.tty
    || is_some c.config_container
    || is_some c.ports
    || is_some c.port_ranges
    || is_some c.volumes
    || is_some c.init_containers
    || is_some c.capabilities
    || is_some c.storage

abbrev has_dagent : ConflictedDagent → Bool
has_dagent c =
    is_some c.log_config
    || is_some c.restart_policy
    || is_some c.network_mode
    || is_some c.docker_labels
    || is_some c.expected_state

abbrev has_crane : ConflictedCrane → Bool
has_crane c =
    is_some c.deployment_strategy
    || is_some c.proxy_headers
    || is_some c.use_load_balancer
    || is_some c.extra_lb_annotations
    || is_some c.health_check_config
    || is_some c.resource_config
    || is_some c.annotations
    || is_some c.labels
    || is_some c.metrics

-- `Object.keys(conflicts).length >= 1`
unfoldable pub has_conflicts : ConflictedContainerConfigData → Bool
has_conflicts c = has_common c.common || has_dagent c.dagent || has_crane c.crane

-- The two `forEach` loops, over the pairs of different positions.
unfoldable pub all_conflicts : List ContainerConfigDataWithId → ConflictedContainerConfigData
all_conflicts configs =
    fold (λ conflicts pair. collect_conflicts pair.0 pair.1 conflicts) no_conflicts
      (ordered_pairs configs)

unfoldable pub check_for_conflicts :
    List ContainerConfigDataWithId → List String → Option ConflictedContainerConfigData
check_for_conflicts configs defined_keys =
    let conflicts = all_conflicts (map (delete_defined defined_keys) configs) in
    if has_conflicts conflicts then some conflicts else none

-- The name of a property that has a value.
abbrev pub key_of {ℓ} : {A : Type ℓ} → String → Option A → List String
key_of key (some value) = key ∷ []
key_of key none = []

-- `Object.entries(concreteConfig)` without the entries that have no value, and without 'secrets';
-- the other uninteresting keys are not properties of a configuration.
unfoldable pub defined_keys_of : ConcreteContainerConfigData → List String
defined_keys_of concrete =
    let c = concrete.body.common in
    let s = concrete.body.storage in
    let d = concrete.body.dagent in
    let k = concrete.body.crane in
    key_of "name" c.name
    ++ key_of "environment" c.environment
    ++ key_of "routing" (defined c.routing)
    ++ key_of "expose" c.expose
    ++ key_of "user" c.user
    ++ key_of "workingDirectory" c.working_directory
    ++ key_of "tty" c.tty
    ++ key_of "configContainer" (defined c.config_container)
    ++ key_of "ports" c.ports
    ++ key_of "portRanges" c.port_ranges
    ++ key_of "volumes" c.volumes
    ++ key_of "commands" c.commands
    ++ key_of "args" c.args
    ++ key_of "initContainers" (defined c.init_containers)
    ++ key_of "capabilities" c.capabilities
    ++ key_of "storageSet" s.storage_set
    ++ key_of "storageId" s.storage_id
    ++ key_of "storageConfig" (defined s.storage_config)
    ++ key_of "logConfig" d.log_config
    ++ key_of "restartPolicy" d.restart_policy
    ++ key_of "networkMode" d.network_mode
    ++ key_of "networks" d.networks
    ++ key_of "dockerLabels" d.docker_labels
    ++ key_of "expectedState" (defined d.expected_state)
    ++ key_of "deploymentStrategy" k.deployment_strategy
    ++ key_of "customHeaders" k.custom_headers
    ++ key_of "proxyHeaders" k.proxy_headers
    ++ key_of "useLoadBalancer" k.use_load_balancer
    ++ key_of "extraLBAnnotations" k.extra_lb_annotations
    ++ key_of "healthCheckConfig" (defined k.health_check_config)
    ++ key_of "resourceConfig" k.resource_config
    ++ key_of "annotations" k.annotations
    ++ key_of "labels" k.labels
    ++ key_of "metrics" (defined k.metrics)

unfoldable pub get_conflicts_for_concrete_config :
    List ContainerConfigDataWithId
    → ConcreteContainerConfigData
    → Option ConflictedContainerConfigData
get_conflicts_for_concrete_config configs concrete =
    check_for_conflicts configs (defined_keys_of concrete)
