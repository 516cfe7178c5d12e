-- ===== src/Container/Stringify.antt =====
-- JSON.stringify of the values that container-conflict.ts compares whole: a volume, and a
-- configuration with its id. The properties stand in the order of the types in container.ts, and
-- those with no value are not printed.
use mathlib.Core.Option
use dyrectorio.Prelude.{String, List, Option, some, ◌++◌}
use dyrectorio.Json.{Json, property, object, array, string, boolean, integer, number}
use dyrectorio.Container.{
  UniqueKey, UniqueKeyValue, UniqueSecretKey, Port, PortRange, ContainerPortRange, Volume, Log,
  ResourceConfig, Marker, StorageProperties, CommonConfig, DagentConfig, CraneConfig,
  ContainerConfigData, ContainerConfigDataWithId,
}

abbrev text_property : String → Option String → Json
text_property name value = property name (Option.map string value)

abbrev list_property : {A : Type 0} → (A → Json) → String → Option (List A) → Json
list_property stringify name value = property name (Option.map (array stringify) value)

abbrev pub key_json : UniqueKey → Json
key_json k = object (property "id" (some (string k.id)) ++ property "key" (some (string k.key)))

abbrev pub key_value_json : UniqueKeyValue → Json
key_value_json k = object (
    property "id" (some (string k.id))
    ++ property "key" (some (string k.key))
    ++ property "value" (some (string k.value)))

abbrev pub secret_key_json : UniqueSecretKey → Json
secret_key_json k = object (
    property "id" (some (string k.id))
    ++ property "key" (some (string k.key))
    ++ property "required" (some (boolean k.required)))

abbrev pub port_json : Port → Json
port_json p = object (
    property "id" (some (string p.id))
    ++ property "internal" (some (number p.internal))
    ++ property "external" (Option.map number p.external))

abbrev pub range_json : PortRange → Json
range_json r = object (property "from" (some (number r.from)) ++ property "to" (some (number r.to)))

abbrev pub port_range_json : ContainerPortRange → Json
port_range_json r = object (
    property "id" (some (string r.id))
    ++ property "internal" (some (range_json r.internal))
    ++ property "external" (some (range_json r.external)))

abbrev pub volume_json : Volume → Json
volume_json v = object (
    property "id" (some (string v.id))
    ++ property "name" (some (string v.name))
    ++ property "path" (some (string v.path))
    ++ text_property "size" v.size
    ++ text_property "type" v.volume_type
    ++ text_property "class" v.class)

abbrev pub log_json : Log → Json
log_json l =
    object (text_property "driver" l.driver ++ list_property key_value_json "options" l.options)

abbrev pub resource_config_json : ResourceConfig → Json
resource_config_json r = object (property "limits" r.limits ++ property "requests" r.requests)

abbrev pub marker_json : Marker → Json
marker_json m = object (
    list_property key_value_json "service" m.service
    ++ list_property key_value_json "deployment" m.deployment
    ++ list_property key_value_json "ingress" m.ingress)

pub common_json : CommonConfig → Json
common_json c =
    text_property "name" c.name
    ++ list_property key_value_json "environment" c.environment
    ++ property "routing" c.routing
    ++ text_property "expose" c.expose
    ++ property "user" (Option.map integer c.user)
    ++ text_property "workingDirectory" c.working_directory
    ++ property "tty" (Option.map boolean c.tty)
    ++ property "configContainer" c.config_container
    ++ list_property port_json "ports" c.ports
    ++ list_property port_range_json "portRanges" c.port_ranges
    ++ list_property volume_json "volumes" c.volumes
    ++ list_property key_json "commands" c.commands
    ++ list_property key_json "args" c.args
    ++ property "initContainers" c.init_containers
    ++ list_property key_value_json "capabilities" c.capabilities

pub storage_json : StorageProperties → Json
storage_json s =
    property "storageSet" (Option.map boolean s.storage_set)
    ++ text_property "storageId" s.storage_id
    ++ property "storageConfig" s.storage_config

pub dagent_json : DagentConfig → Json
dagent_json d =
    property "logConfig" (Option.map log_json d.log_config)
    ++ text_property "restartPolicy" d.restart_policy
    ++ text_property "networkMode" d.network_mode
    ++ list_property key_json "networks" d.networks
    ++ list_property key_value_json "dockerLabels" d.docker_labels
    ++ property "expectedState" d.expected_state

pub crane_json : CraneConfig → Json
crane_json c =
    text_property "deploymentStrategy" c.deployment_strategy
    ++ list_property key_json "customHeaders" c.custom_headers
    ++ property "proxyHeaders" (Option.map boolean c.proxy_headers)
    ++ property "useLoadBalancer" (Option.map boolean c.use_load_balancer)
    ++ list_property key_value_json "extraLBAnnotations" c.extra_lb_annotations
    ++ property "healthCheckConfig" c.health_check_config
    ++ property "resourceConfig" (Option.map resource_config_json c.resource_config)
    ++ property "annotations" (Option.map marker_json c.annotations)
    ++ property "labels" (Option.map marker_json c.labels)
    ++ property "metrics" c.metrics

pub config_json : ContainerConfigData → Json
config_json c =
    common_json c.body.common
    ++ list_property secret_key_json "secrets" c.secrets
    ++ storage_json c.body.storage
    ++ dagent_json c.body.dagent
    ++ crane_json c.body.crane

unfoldable pub config_with_id_json : ContainerConfigDataWithId → Json
config_with_id_json c = object (property "id" (some (string c.id)) ++ config_json c.config)
