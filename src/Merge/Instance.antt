-- ===== src/Merge/Instance.antt =====
-- mergeInstanceConfigWithDeploymentConfig of domain/container-merge.ts.
use dyrectorio.Prelude.{some, [], ◌or_else◌}
use dyrectorio.Json.{json_or_null, token_eq}
use dyrectorio.Container.{CommonConfig, DagentConfig, CraneConfig, ConcreteContainerConfigData}
use dyrectorio.Conflict.{ranges_overlap}
use dyrectorio.Merge.{merge_number, merge_boolean, merge_storage, merge_markers}
use dyrectorio.Merge.Lists.{
  merge_lists, merge_ports, merge_port_ranges, merge_volumes, merge_key_values, merge_keys,
  merge_secret_values,
}

unfoldable pub merge_instance_common : CommonConfig → CommonConfig → CommonConfig
unfolding merge_lists ranges_overlap
merge_instance_common deployment inst = record {
  name = inst.name or_else deployment.name;
  environment = merge_key_values inst.environment deployment.environment;
  user = merge_number inst.user deployment.user;
  working_directory = inst.working_directory or_else deployment.working_directory;
  tty = merge_boolean inst.tty deployment.tty;
  ports = merge_ports inst.ports deployment.ports;
  port_ranges = merge_port_ranges inst.port_ranges deployment.port_ranges;
  args = merge_keys inst.args deployment.args;
  commands = merge_keys inst.commands deployment.commands;
  expose = inst.expose or_else deployment.expose;
  config_container = json_or_null inst.config_container deployment.config_container;
  routing = json_or_null inst.routing deployment.routing;
  volumes = merge_volumes inst.volumes deployment.volumes;
  init_containers = json_or_null inst.init_containers deployment.init_containers;
  capabilities = some [];
}

-- The arguments of `customHeaders` stand in the order of the source: the deployment's come first.
unfoldable pub merge_instance_crane : CraneConfig → CraneConfig → CraneConfig
unfolding merge_lists merge_markers
merge_instance_crane deployment inst = record {
  custom_headers = merge_keys deployment.custom_headers inst.custom_headers;
  proxy_headers = merge_boolean inst.proxy_headers deployment.proxy_headers;
  extra_lb_annotations = merge_key_values inst.extra_lb_annotations deployment.extra_lb_annotations;
  health_check_config = json_or_null inst.health_check_config deployment.health_check_config;
  resource_config = inst.resource_config or_else deployment.resource_config;
  use_load_balancer = merge_boolean inst.use_load_balancer deployment.use_load_balancer;
  deployment_strategy = inst.deployment_strategy or_else deployment.deployment_strategy;
  labels = merge_markers inst.labels deployment.labels;
  annotations = merge_markers inst.annotations deployment.annotations;
  metrics = json_or_null inst.metrics deployment.metrics;
}

unfoldable pub merge_instance_dagent : DagentConfig → DagentConfig → DagentConfig
unfolding merge_lists
merge_instance_dagent deployment inst = record {
  log_config = inst.log_config or_else deployment.log_config;
  network_mode = inst.network_mode or_else deployment.network_mode;
  restart_policy = inst.restart_policy or_else deployment.restart_policy;
  networks = merge_keys inst.networks deployment.networks;
  docker_labels = merge_key_values inst.docker_labels deployment.docker_labels;
  expected_state = json_or_null inst.expected_state deployment.expected_state;
}

unfoldable pub merge_instance_config_with_deployment_config :
    ConcreteContainerConfigData → ConcreteContainerConfigData → ConcreteContainerConfigData
unfolding merge_instance_common merge_instance_crane merge_instance_dagent merge_storage merge_lists
merge_instance_config_with_deployment_config deployment inst = record {
  body = record {
    common = merge_instance_common deployment.body.common inst.body.common;
    storage = merge_storage inst.body.storage deployment.body.storage;
    dagent = merge_instance_dagent deployment.body.dagent inst.body.dagent;
    crane = merge_instance_crane deployment.body.crane inst.body.crane;
  };
  secrets = merge_secret_values inst.secrets deployment.secrets;
}
