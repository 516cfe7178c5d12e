-- ===== src/Conflict/Collect.antt =====
-- collectConflicts of domain/container-conflict.ts: every property of two configurations.
use dyrectorio.Prelude.{String, Option, none, some}
use dyrectorio.Json.{Json}
use dyrectorio.Container.{ContainerConfigDataWithId}
use dyrectorio.Container.Stringify.{config_with_id_json}
use dyrectorio.Conflict.{
  range_eq, ConflictedLog, ConflictedResourceConfig, ConflictedMarker, ConflictedLogKeys,
  ConflictedResourceConfigKeys, ConflictedMarkerKeys, ConflictedCommon, ConflictedDagent,
  ConflictedCrane, ConflictedContainerConfigData,
}
use dyrectorio.Conflict.Append.{
  append_if, append_keys_if, append_log_conflict, append_resource_config_conflict,
  append_marker_conflict,
}
use dyrectorio.Conflict.Values.{
  strings_conflict, booleans_conflict, numbers_conflict, objects_conflict,
  unique_key_values_conflict, ports_conflict, port_ranges_conflict, volumes_conflict, logs_conflict,
  resource_configs_conflict, markers_conflict,
}
use dyrectorio.Prelude.{string_eq, nat_eq}

-- `typeof value === 'string'`: the object of `expectedState` is no string.
abbrev pub object_as_string : Option Json → Option String
object_as_string value = none

unfoldable pub check_logs :
    Option ConflictedLogKeys → Option ConflictedLog → String → String → Option ConflictedLog
unfolding append_log_conflict
check_logs none conflicts one_id other_id = conflicts
check_logs (some keys) conflicts one_id other_id =
    some (append_log_conflict conflicts one_id other_id keys)

unfoldable pub check_resource_config :
    Option ConflictedResourceConfigKeys
    → Option ConflictedResourceConfig
    → String
    → String
    → Option ConflictedResourceConfig
unfolding append_resource_config_conflict
check_resource_config none conflicts one_id other_id = conflicts
check_resource_config (some keys) conflicts one_id other_id =
    some (append_resource_config_conflict conflicts one_id other_id keys)

unfoldable pub check_marker :
    Option ConflictedMarkerKeys
    → Option ConflictedMarker
    → String
    → String
    → Option ConflictedMarker
unfolding append_marker_conflict
check_marker none conflicts one_id other_id = conflicts
check_marker (some keys) conflicts one_id other_id =
    some (append_marker_conflict conflicts one_id other_id keys)

module _ (one_config other_config : ContainerConfigDataWithId) where
  unfoldable pub collect_common : ConflictedCommon → ConflictedCommon
  unfolding append_if append_keys_if
  collect_common c =
      let one = one_config.config.body.common in
      let other = other_config.config.body.common in
      let a = one_config.id in
      let b = other_config.id in
      record {
        name = append_if (strings_conflict one.name other.name) c.name a b;
        environment =
            append_keys_if (unique_key_values_conflict one.environment other.environment)
              c.environment a b;
        routing = append_if (objects_conflict one.routing other.routing) c.routing a b;
        expose = append_if (strings_conflict one.expose other.expose) c.expose a b;
        user = append_if (numbers_conflict one.user other.user) c.user a b;
        working_directory =
            append_if (strings_conflict one.working_directory other.working_directory)
              c.working_directory a b;
        tty = append_if (booleans_conflict one.tty other.tty) c.tty a b;
        config_container =
            append_if (objects_conflict one.config_container other.config_container)
              c.config_container a b;
        ports = append_keys_if (ports_conflict one.ports other.ports) c.ports a b;
        port_ranges =
            append_keys_if (port_ranges_conflict one.port_ranges other.port_ranges) c.port_ranges a
              b;
        volumes = append_keys_if (volumes_conflict one.volumes other.volumes) c.volumes a b;
        init_containers =
            append_if (objects_conflict one.init_containers other.init_containers) c.init_containers
              a b;
        capabilities =
            append_keys_if (unique_key_values_conflict one.capabilities other.capabilities)
              c.capabilities a b;
        storage =
            append_if
              (objects_conflict (some (config_with_id_json one_config))
                (some (config_with_id_json other_config)))
              c.storage a b;
      }

  unfoldable pub collect_dagent : ConflictedDagent → ConflictedDagent
  unfolding append_if append_keys_if check_logs
  collect_dagent c =
      let one = one_config.config.body.dagent in
      let other = other_config.config.body.dagent in
      let a = one_config.id in
      let b = other_config.id in
      record {
        log_config = check_logs (logs_conflict one.log_config other.log_config) c.log_config a b;
        restart_policy =
            append_if (strings_conflict one.restart_policy other.restart_policy) c.restart_policy a
              b;
        network_mode =
            append_if (strings_conflict one.network_mode other.network_mode) c.network_mode a b;
        docker_labels =
            append_keys_if (unique_key_values_conflict one.docker_labels other.docker_labels)
              c.docker_labels a b;
        expected_state =
            append_if
              (strings_conflict (object_as_string one.expected_state)
                (object_as_string other.expected_state))
              c.expected_state a b;
      }

  unfoldable pub collect_crane : ConflictedCrane → ConflictedCrane
  unfolding append_if append_keys_if check_resource_config check_marker
  collect_crane c =
      let one = one_config.config.body.crane in
      let other = other_config.config.body.crane in
      let a = one_config.id in
      let b = other_config.id in
      record {
        deployment_strategy =
            append_if (strings_conflict one.deployment_strategy other.deployment_strategy)
              c.deployment_strategy a b;
        proxy_headers =
            append_if (booleans_conflict one.proxy_headers other.proxy_headers) c.proxy_headers a b;
        use_load_balancer =
            append_if (booleans_conflict one.use_load_balancer other.use_load_balancer)
              c.use_load_balancer a b;
        extra_lb_annotations =
            append_keys_if
              (unique_key_values_conflict one.extra_lb_annotations other.extra_lb_annotations)
              c.extra_lb_annotations a b;
        health_check_config =
            append_if (objects_conflict one.health_check_config other.health_check_config)
              c.health_check_config a b;
        resource_config =
            check_resource_config
              (resource_configs_conflict one.resource_config other.resource_config)
              c.resource_config a b;
        annotations =
            check_marker (markers_conflict one.annotations other.annotations) c.annotations a b;
        labels = check_marker (markers_conflict one.labels other.labels) c.labels a b;
        metrics = append_if (objects_conflict one.metrics other.metrics) c.metrics a b;
      }

  -- The changes that `collectConflicts` makes to its argument `conflicts`.
  unfoldable pub collect_conflicts : ConflictedContainerConfigData → ConflictedContainerConfigData
  unfolding collect_common collect_dagent collect_crane
  collect_conflicts conflicts = record {
    common = collect_common conflicts.common;
    dagent = collect_dagent conflicts.dagent;
    crane = collect_crane conflicts.crane;
  }
