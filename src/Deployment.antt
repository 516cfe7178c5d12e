-- ===== src/Deployment.antt =====
-- domain/deployment.ts: the status of a deployment, what it allows, and the events of a run.
pub mod Policy
pub mod Run
use dyrectorio.Prelude.{
  String, Bool, true, false, not, ◌&&◌, ◌||◌, Option, none, some, List, [], ◌∷◌, ◌++◌, length,
  filter, any, ltb, ◌==◌, string_eq, if◌then◌else◌,
}

-- `DeploymentStatusEnum` and `VersionTypeEnum` of the database
pub data DeploymentStatus : Type 0 where
  preparing in_progress successful failed obsolete downgraded : DeploymentStatus

pub data VersionType : Type 0 where
  incremental rolling : VersionType

-- `DeploymentStatus`, `ContainerState` and `DeploymentMessageLevel` of the agent protocol
pub data ProtoDeploymentStatus : Type 0 where
  unspecified preparing in_progress successful failed obsolete downgraded unrecognized :
      ProtoDeploymentStatus

pub data ProtoContainerState : Type 0 where
  unspecified running waiting exited removed unrecognized : ProtoContainerState

pub data DeploymentMessageLevel : Type 0 where
  unspecified info warning error unrecognized : DeploymentMessageLevel

-- What `deploymentStatusToDb` returns: `invalid` is a text that is no `DeploymentStatusEnum`.
pub data StoredStatus : Type 0 where
  valid : DeploymentStatus → StoredStatus
  invalid : String → StoredStatus

pub data DeploymentLogLevel : Type 0 where
  info warn error : DeploymentLogLevel

unfoldable pub deployment_status_to_db : ProtoDeploymentStatus → StoredStatus
deployment_status_to_db ProtoDeploymentStatus.in_progress = valid DeploymentStatus.in_progress
deployment_status_to_db ProtoDeploymentStatus.unspecified = invalid "deployment_status_unspecified"
deployment_status_to_db ProtoDeploymentStatus.preparing = valid DeploymentStatus.preparing
deployment_status_to_db ProtoDeploymentStatus.successful = valid DeploymentStatus.successful
deployment_status_to_db ProtoDeploymentStatus.failed = valid DeploymentStatus.failed
deployment_status_to_db ProtoDeploymentStatus.obsolete = valid DeploymentStatus.obsolete
deployment_status_to_db ProtoDeploymentStatus.downgraded = valid DeploymentStatus.downgraded
deployment_status_to_db ProtoDeploymentStatus.unrecognized = invalid "unrecognized"

unfoldable pub deployment_log_level_to_db : DeploymentMessageLevel → DeploymentLogLevel
deployment_log_level_to_db DeploymentMessageLevel.info = DeploymentLogLevel.info
deployment_log_level_to_db DeploymentMessageLevel.warning = DeploymentLogLevel.warn
deployment_log_level_to_db DeploymentMessageLevel.error = DeploymentLogLevel.error
deployment_log_level_to_db DeploymentMessageLevel.unspecified = DeploymentLogLevel.info
deployment_log_level_to_db DeploymentMessageLevel.unrecognized = DeploymentLogLevel.info

-- The unspecified state is the number 0, which is falsy.
unfoldable pub container_state_to_dto : Option ProtoContainerState → Option String
container_state_to_dto none = none
container_state_to_dto (some ProtoContainerState.unspecified) = none
container_state_to_dto (some ProtoContainerState.unrecognized) = none
container_state_to_dto (some ProtoContainerState.running) = some "running"
container_state_to_dto (some ProtoContainerState.waiting) = some "waiting"
container_state_to_dto (some ProtoContainerState.exited) = some "exited"
container_state_to_dto (some ProtoContainerState.removed) = some "removed"

abbrev pub is_in_progress : DeploymentStatus → Bool
is_in_progress DeploymentStatus.in_progress = true
is_in_progress _ = false

abbrev pub is_preparing : DeploymentStatus → Bool
is_preparing DeploymentStatus.preparing = true
is_preparing _ = false

abbrev pub is_rolling : VersionType → Bool
is_rolling rolling = true
is_rolling incremental = false

unfoldable pub check_deployment_copiability : DeploymentStatus → Bool
check_deployment_copiability status = not (is_in_progress status)

pub record PlacedDeployment : Type 0 where
  pub status : DeploymentStatus
  pub node_id : String
  pub prefix : Option String

abbrev pub prefix_is : Option String → String → Bool
prefix_is (some p) prefix = p == prefix
prefix_is none prefix = false

abbrev pub relevant_deployments : List PlacedDeployment → String → String → List PlacedDeployment
relevant_deployments deployments node_id prefix =
    filter (λ it. it.node_id == node_id && prefix_is it.prefix prefix) deployments

unfoldable pub check_prefix_availability :
    VersionType → List PlacedDeployment → String → String → Bool
check_prefix_availability version_type deployments node_id prefix =
    let relevant = relevant_deployments deployments node_id prefix in
    if is_rolling version_type
    then ltb (length relevant) 1
    else not (any (λ it. is_preparing it.status || is_in_progress it.status) relevant)

unfoldable pub deployment_is_deletable : DeploymentStatus → Bool
deployment_is_deletable status = not (is_in_progress status)

unfoldable pub deployment_is_mutable : DeploymentStatus → VersionType → Bool
deployment_is_mutable DeploymentStatus.preparing t = true
deployment_is_mutable DeploymentStatus.failed t = true
deployment_is_mutable DeploymentStatus.successful t = is_rolling t
deployment_is_mutable DeploymentStatus.in_progress t = false
deployment_is_mutable DeploymentStatus.obsolete t = false
deployment_is_mutable DeploymentStatus.downgraded t = false

unfoldable pub check_deployment_deployability : DeploymentStatus → VersionType → Bool
check_deployment_deployability DeploymentStatus.preparing t = true
check_deployment_deployability DeploymentStatus.failed t = true
check_deployment_deployability DeploymentStatus.obsolete t = true
check_deployment_deployability DeploymentStatus.successful t = is_rolling t
check_deployment_deployability DeploymentStatus.in_progress t = false
check_deployment_deployability DeploymentStatus.downgraded t = false

pub record InstanceProgress : Type 0 where
  pub instance_id : String
  pub state : Option ProtoContainerState
  pub reason : String

pub record DeploymentStatusMessage : Type 0 where
  pub log : Option (List String)
  pub deployment_status : Option ProtoDeploymentStatus
  pub instance_progress : Option InstanceProgress
  pub log_level : DeploymentMessageLevel

pub data DeploymentProgressEvent : Type 0 where
  deployment_status : StoredStatus → DeploymentProgressEvent
  container_state : String → Option String → String → DeploymentProgressEvent
  log : List String → DeploymentLogLevel → DeploymentProgressEvent

-- The calls that are made on the subject `statusChannel`, in order.
pub data ChannelCall : Type 0 where
  next : DeploymentStatusMessage → ChannelCall
  complete : ChannelCall

pub record Deployment : Type 0 where
  pub id : String
  pub status : StoredStatus
  pub status_channel : List ChannelCall

unfoldable pub new_deployment : String → Deployment
new_deployment id = record {
  id = id;
  status = valid DeploymentStatus.preparing;
  status_channel = [];
}

-- The message that `start` sends; the deploy command goes to the channel of the agent.
abbrev pub started_message : DeploymentStatusMessage
started_message = record {
  log = some [];
  deployment_status = some ProtoDeploymentStatus.in_progress;
  instance_progress = none;
  log_level = DeploymentMessageLevel.unspecified;
}

unfoldable pub start : Deployment → Deployment
start d = record d {
  status = valid DeploymentStatus.in_progress;
  status_channel = d.status_channel ++ next started_message ∷ [];
}

-- The status of a message, unless it is missing or 0.
abbrev pub reported_status : Option ProtoDeploymentStatus → Option StoredStatus
reported_status none = none
reported_status (some ProtoDeploymentStatus.unspecified) = none
reported_status (some s) = some (deployment_status_to_db s)

abbrev pub status_events : Option StoredStatus → List DeploymentProgressEvent
status_events (some s) = deployment_status s ∷ []
status_events none = []

abbrev pub instance_events : Option InstanceProgress → List DeploymentProgressEvent
instance_events (some i) =
    container_state i.instance_id (container_state_to_dto i.state) i.reason ∷ []
instance_events none = []

abbrev pub log_events : Option (List String) → DeploymentMessageLevel → List DeploymentProgressEvent
log_events none level = []
log_events (some []) level = []
log_events (some (l ∷ lines)) level = log (l ∷ lines) (deployment_log_level_to_db level) ∷ []

abbrev pub new_status : Option StoredStatus → StoredStatus → StoredStatus
new_status (some s) old = s
new_status none old = old

unfoldable pub on_update :
    Deployment → DeploymentStatusMessage → Deployment × List DeploymentProgressEvent
unfolding deployment_status_to_db container_state_to_dto deployment_log_level_to_db
on_update d progress =
    let reported = reported_status progress.deployment_status in
    (
      record d {
        status = new_status reported d.status;
        status_channel = d.status_channel ++ next progress ∷ [];
      },
      status_events reported
          ++ instance_events progress.instance_progress
          ++ log_events progress.log progress.log_level,
    )

unfoldable pub on_disconnected : Deployment → Deployment
on_disconnected d = record d { status_channel = d.status_channel ++ complete ∷ [] }
