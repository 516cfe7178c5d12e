-- ===== src/Container.antt =====
-- domain/container.ts: the data of a container configuration.
-- A missing property is `none`, and so is null, but for a property of object type: there null is the
-- text `null`. A property whose value the domain code only moves, or compares by JSON.stringify, is
-- kept as the tokens of its JSON text (`Json`).
pub mod Stringify
use dyrectorio.Json.{Json}
use dyrectorio.Prelude.{ℕ, String, Bool, Option, List, ℤ}

pub record UniqueKey : Type 0 where
  pub id : String
  pub key : String

pub record UniqueKeyValue : Type 0 where
  pub id : String
  pub key : String
  pub value : String

-- `object` is the identity of the object, which `Array.includes` compares.
pub record UniqueSecretKey : Type 0 where
  pub object : ℕ
  pub id : String
  pub key : String
  pub required : Bool

pub record UniqueSecretKeyValue : Type 0 where
  pub id : String
  pub key : String
  pub value : String
  pub required : Bool
  pub encrypted : Bool
  pub public_key : Option String

pub record Port : Type 0 where
  pub id : String
  pub internal : ℕ
  pub external : Option ℕ

pub record PortRange : Type 0 where
  pub from : ℕ
  pub to : ℕ

pub record ContainerPortRange : Type 0 where
  pub id : String
  pub internal : PortRange
  pub external : PortRange

pub record Volume : Type 0 where
  pub id : String
  pub name : String
  pub path : String
  pub size : Option String
  pub volume_type : Option String
  pub class : Option String

pub record Log : Type 0 where
  pub driver : Option String
  pub options : Option (List UniqueKeyValue)

pub record ResourceConfig : Type 0 where
  pub limits : Option Json
  pub requests : Option Json

pub record Marker : Type 0 where
  pub service : Option (List UniqueKeyValue)
  pub deployment : Option (List UniqueKeyValue)
  pub ingress : Option (List UniqueKeyValue)

pub record StorageProperties : Type 0 where
  pub storage_set : Option Bool
  pub storage_id : Option String
  pub storage_config : Option Json

-- The properties under `common`, without the secrets and the three of the storage.
pub record CommonConfig : Type 0 where
  pub name : Option String
  pub environment : Option (List UniqueKeyValue)
  pub routing : Option Json
  pub expose : Option String
  pub user : Option ℤ
  pub working_directory : Option String
  pub tty : Option Bool
  pub config_container : Option Json
  pub ports : Option (List Port)
  pub port_ranges : Option (List ContainerPortRange)
  pub volumes : Option (List Volume)
  pub commands : Option (List UniqueKey)
  pub args : Option (List UniqueKey)
  pub init_containers : Option Json
  pub capabilities : Option (List UniqueKeyValue)

pub record DagentConfig : Type 0 where
  pub log_config : Option Log
  pub restart_policy : Option String
  pub network_mode : Option String
  pub networks : Option (List UniqueKey)
  pub docker_labels : Option (List UniqueKeyValue)
  pub expected_state : Option Json

pub record CraneConfig : Type 0 where
  pub deployment_strategy : Option String
  pub custom_headers : Option (List UniqueKey)
  pub proxy_headers : Option Bool
  pub use_load_balancer : Option Bool
  pub extra_lb_annotations : Option (List UniqueKeyValue)
  pub health_check_config : Option Json
  pub resource_config : Option ResourceConfig
  pub annotations : Option Marker
  pub labels : Option Marker
  pub metrics : Option Json

-- All properties but the secrets, which are of two types.
pub record ConfigBody : Type 0 where
  pub common : CommonConfig
  pub storage : StorageProperties
  pub dagent : DagentConfig
  pub crane : CraneConfig

pub record ContainerConfigData : Type 0 where
  pub body : ConfigBody
  pub secrets : Option (List UniqueSecretKey)

pub record ContainerConfigDataWithId : Type 0 where
  pub id : String
  pub config : ContainerConfigData

pub record ConcreteContainerConfigData : Type 0 where
  pub body : ConfigBody
  pub secrets : Option (List UniqueSecretKeyValue)

-- Every property is missing: the `{}` of the source.
abbrev pub empty_body : ConfigBody
empty_body = record {
  common = record {
    name = Option.none;
    environment = Option.none;
    routing = Option.none;
    expose = Option.none;
    user = Option.none;
    working_directory = Option.none;
    tty = Option.none;
    config_container = Option.none;
    ports = Option.none;
    port_ranges = Option.none;
    volumes = Option.none;
    commands = Option.none;
    args = Option.none;
    init_containers = Option.none;
    capabilities = Option.none;
  };
  storage = record {
    storage_set = Option.none;
    storage_id = Option.none;
    storage_config = Option.none;
  };
  dagent = record {
    log_config = Option.none;
    restart_policy = Option.none;
    network_mode = Option.none;
    networks = Option.none;
    docker_labels = Option.none;
    expected_state = Option.none;
  };
  crane = record {
    deployment_strategy = Option.none;
    custom_headers = Option.none;
    proxy_headers = Option.none;
    use_load_balancer = Option.none;
    extra_lb_annotations = Option.none;
    health_check_config = Option.none;
    resource_config = Option.none;
    annotations = Option.none;
    labels = Option.none;
    metrics = Option.none;
  };
}

abbrev pub empty_config : ContainerConfigData
empty_config = record { body = empty_body; secrets = Option.none }

abbrev pub empty_concrete : ConcreteContainerConfigData
empty_concrete = record { body = empty_body; secrets = Option.none }
