-- ===== src/Merge.antt =====
-- domain/container-merge.ts: merging two configurations, the strong one over the weak one.
-- Objects are only read before a new one is built, so records stand for them.
pub mod Lists
pub mod Instance
pub mod Lookup
pub mod Secrets
pub mod Ranges
pub mod Squash
pub mod Storage
pub mod Override
use dyrectorio.Prelude.{
  ℤ, String, Bool, true, false, not, Option, none, some, List, [], ◌∷◌, ◌++◌, map, filter, any,
  fold, contains, ◌==◌, string_eq, nat_eq, ◌or_else◌, items,
}
use dyrectorio.Json.{json_or, token_eq}
use dyrectorio.Container.{
  UniqueSecretKey, UniqueSecretKeyValue, Marker, StorageProperties, CommonConfig, DagentConfig,
  CraneConfig, ConfigBody, ContainerConfigData, ConcreteContainerConfigData, empty_config,
  empty_concrete,
}

abbrev pub merge_number : Option ℤ → Option ℤ → Option ℤ
merge_number (some strong) weak = some strong
merge_number none (some weak) = some weak
merge_number none none = none

abbrev pub merge_boolean : Option Bool → Option Bool → Option Bool
merge_boolean (some strong) weak = some strong
merge_boolean none (some weak) = some weak
merge_boolean none none = none

abbrev pub no_storage : StorageProperties
no_storage = record { storage_set = some false; storage_id = none; storage_config = none }

-- What `mergeStorage` returns once `set` is true: the strong storage if its flag is a boolean.
abbrev pub chosen_storage : Option Bool → StorageProperties → StorageProperties → StorageProperties
chosen_storage (some flag) strong weak = record {
  storage_set = some true;
  storage_id = strong.storage_id;
  storage_config = strong.storage_config;
}
chosen_storage none strong weak = record {
  storage_set = some true;
  storage_id = weak.storage_id;
  storage_config = weak.storage_config;
}

abbrev pub merge_storage_if :
    Option Bool → StorageProperties → StorageProperties → StorageProperties
merge_storage_if (some true) strong weak = chosen_storage strong.storage_set strong weak
merge_storage_if (some false) strong weak = no_storage
merge_storage_if none strong weak = no_storage

unfoldable pub merge_storage : StorageProperties → StorageProperties → StorageProperties
merge_storage strong weak =
    merge_storage_if (merge_boolean strong.storage_set weak.storage_set) strong weak

-- `strong ?? weak ?? []`
abbrev pub or_empty : {A : Type 0} → Option (List A) → Option (List A) → Option (List A)
or_empty strong weak = strong or_else weak or_else some []

unfoldable pub merge_markers : Option Marker → Option Marker → Option Marker
merge_markers none weak = weak
merge_markers (some strong) none = some strong
merge_markers (some strong) (some weak) = some (record {
  deployment = or_empty strong.deployment weak.deployment;
  ingress = or_empty strong.ingress weak.ingress;
  service = or_empty strong.service weak.service;
})

-- `Array.includes` compares objects by identity.
abbrev pub includes : List UniqueSecretKey → UniqueSecretKey → Bool
includes keys k = any (λ it. it.object == k.object) keys

unfoldable pub merge_secret_keys :
    Option (List UniqueSecretKey) → Option (List UniqueSecretKey) → Option (List UniqueSecretKey)
merge_secret_keys none other = other
merge_secret_keys (some one) none = some one
merge_secret_keys (some one) (some other) = some (one ++ filter (λ it. not (includes one it)) other)

-- A key of the weak configuration as a secret that has no value yet.
abbrev pub valueless : UniqueSecretKey → UniqueSecretKeyValue
valueless k = record {
  id = k.id;
  key = k.key;
  value = "";
  required = k.required;
  encrypted = false;
  public_key = none;
}

abbrev pub secret_ids : List UniqueSecretKeyValue → List String
secret_ids = map λ it. it.id

unfoldable pub merge_secrets :
    Option (List UniqueSecretKeyValue) → Option (List UniqueSecretKey) → List UniqueSecretKeyValue
merge_secrets strong weak =
    let overridden_ids = secret_ids (items strong) in
    map valueless (filter (λ it. not (contains overridden_ids it.id)) (items weak)) ++ items strong

unfoldable pub merge_common : CommonConfig → CommonConfig → CommonConfig
merge_common strong weak = record {
  name = strong.name or_else weak.name;
  environment = strong.environment or_else weak.environment;
  user = merge_number strong.user weak.user;
  working_directory = strong.working_directory or_else weak.working_directory;
  tty = merge_boolean strong.tty weak.tty;
  port_ranges = strong.port_ranges or_else weak.port_ranges;
  args = strong.args or_else weak.args;
  commands = strong.commands or_else weak.commands;
  expose = strong.expose or_else weak.expose;
  config_container = json_or strong.config_container weak.config_container;
  routing = json_or strong.routing weak.routing;
  volumes = strong.volumes or_else weak.volumes;
  init_containers = json_or strong.init_containers weak.init_containers;
  capabilities = some [];
  ports = strong.ports or_else weak.ports;
}

unfoldable pub merge_dagent : DagentConfig → DagentConfig → DagentConfig
merge_dagent strong weak = record {
  log_config = strong.log_config or_else weak.log_config;
  network_mode = strong.network_mode or_else weak.network_mode;
  restart_policy = strong.restart_policy or_else weak.restart_policy;
  networks = strong.networks or_else weak.networks;
  docker_labels = strong.docker_labels or_else weak.docker_labels;
  expected_state = json_or strong.expected_state weak.expected_state;
}

unfoldable pub merge_crane : CraneConfig → CraneConfig → CraneConfig
merge_crane strong weak = record {
  custom_headers = strong.custom_headers or_else weak.custom_headers;
  proxy_headers = merge_boolean strong.proxy_headers weak.proxy_headers;
  extra_lb_annotations = strong.extra_lb_annotations or_else weak.extra_lb_annotations;
  health_check_config = json_or strong.health_check_config weak.health_check_config;
  resource_config = strong.resource_config or_else weak.resource_config;
  use_load_balancer = merge_boolean strong.use_load_balancer weak.use_load_balancer;
  deployment_strategy = strong.deployment_strategy or_else weak.deployment_strategy;
  labels = merge_markers strong.labels weak.labels;
  annotations = merge_markers strong.annotations weak.annotations;
  metrics = json_or strong.metrics weak.metrics;
}

-- `mergeConfigs` on all properties but the secrets.
unfoldable pub merge_bodies : ConfigBody → ConfigBody → ConfigBody
unfolding merge_common merge_storage merge_dagent merge_crane
merge_bodies strong weak = record {
  common = merge_common strong.common weak.common;
  storage = merge_storage strong.storage weak.storage;
  dagent = merge_dagent strong.dagent weak.dagent;
  crane = merge_crane strong.crane weak.crane;
}

unfoldable pub merge_configs : ContainerConfigData → ContainerConfigData → ContainerConfigData
unfolding merge_bodies merge_secret_keys
merge_configs strong weak = record {
  body = merge_bodies strong.body weak.body;
  secrets = merge_secret_keys strong.secrets weak.secrets;
}

unfoldable pub squash_configs : List ContainerConfigData → ContainerConfigData
squash_configs configs = fold (λ result conf. merge_configs conf result) empty_config configs

-- `configs.filter(it => !!it)`
abbrev pub present {ℓ} : {A : Type ℓ} → List (Option A) → List A
present [] = []
present (none ∷ configs) = present configs
present (some c ∷ configs) = c ∷ present configs

abbrev pub or_empty_concrete : Option ConcreteContainerConfigData → ConcreteContainerConfigData
or_empty_concrete (some concrete) = concrete
or_empty_concrete none = empty_concrete

-- The secrets of `baseConfig` are overwritten, and so left out.
unfoldable pub merge_configs_with_concrete_config :
    List (Option ContainerConfigData)
    → Option ConcreteContainerConfigData
    → ConcreteContainerConfigData
merge_configs_with_concrete_config configs concrete =
    let squashed = squash_configs (present configs) in
    let concrete' = or_empty_concrete concrete in
    record {
      body = merge_bodies concrete'.body squashed.body;
      secrets = some (merge_secrets concrete'.secrets squashed.secrets);
    }
