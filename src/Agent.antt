-- ===== src/Agent.antt =====
-- domain/agent.ts: the server's side of a connected agent. The calls on the subjects of a library are
-- recorded in `calls`, in order. What a method changes stays changed where it throws: so does the
-- `updating` property, which forgets an update that is expired. `now` is `new Date().getTime()`, and
-- `closed` is the property of the command channel, by the calls made on it.
pub mod Streams
pub mod Callbacks
pub mod Updates
pub mod Steps
pub mod Status
pub mod Work
pub mod Waits
pub mod Pending
pub mod Consistent
pub mod Invariant
use dyrectorio.Prelude.{
  Bool, List, Option, String, [], false, if◌then◌else◌, is_some, lookup, none, set, some, true, ℕ,
  ◌++◌, ◌+◌, ◌-◌, ◌||◌, ◌∷◌,
}
use dyrectorio.AgentCommand.{
  AgentCommand, AgentConnectionMessage, CallbackType, NodeConnectionStatus, CloseReason, CruxError,
  Result, ok, err,
}
use dyrectorio.AgentUpdate.{AgentToken, AgentUpdateOptions, expired}
use dyrectorio.AgentCallback.{AgentCallback, new_callback}
use dyrectorio.ContainerLogStream.{ContainerLogStream, new_stream}
use dyrectorio.ContainerStatusWatcher
use dyrectorio.ContainerStatusWatcher.{
  ContainerIdentifier, ContainerStatusWatcher, container_prefix_name_of, new_watcher,
  on_node_stream_started, on_node_stream_finished, stop,
}
use dyrectorio.Deployment.{Deployment, StoredStatus, on_disconnected}
use dyrectorio.Deployment

pub record AgentTokenReplacement : Type 0 where
  pub started_by : String
  pub token : AgentToken
  pub signed_token : String

pub data AgentCall (C : Type 0) : Type 0 where
  command : AgentCommand → AgentCall C
  complete_commands : AgentCall C
  event : AgentConnectionMessage → AgentCall C
  subscribe_status unsubscribe_status : AgentCall C
  watcher_call : String → ContainerStatusWatcher.Effect C → AgentCall C
  awaited : CallbackType → ℕ → AgentCall C
  cancelled : CallbackType → ℕ → AgentCall C

-- The connection is here by its address, its time, its token and its signed token.
pub record Agent (C M : Type 0) : Type 0 where
  pub address : String
  pub version : String
  pub connected_at : ℕ
  pub token : AgentToken
  pub jwt : String
  pub outdated : Bool
  pub deployments : List (String × Deployment)
  pub list_secrets : AgentCallback
  pub container_log : AgentCallback
  pub container_inspect : AgentCallback
  pub delete_containers : AgentCallback
  pub status_streams : List (String × ContainerStatusWatcher C)
  pub log_streams : List (String × ContainerLogStream M)
  pub update : Option AgentUpdateOptions
  pub replacement_token : Option AgentTokenReplacement
  pub has_status_subscription : Bool
  pub calls : List (AgentCall C)

abbrev pub close_command : {C : Type 0} → Option CloseReason → List (AgentCall C)
close_command none = []
close_command (some CloseReason.unspecified) = []
close_command (some reason) = command (AgentCommand.close reason) ∷ []

module _ {C M : Type 0} where
  abbrev pub new_agent : String → String → ℕ → AgentToken → String → Bool → Agent C M
  new_agent address version connected_at token jwt outdated = record {
    address = address;
    version = version;
    connected_at = connected_at;
    token = token;
    jwt = jwt;
    outdated = outdated;
    deployments = [];
    list_secrets = new_callback;
    container_log = new_callback;
    container_inspect = new_callback;
    delete_containers = new_callback;
    status_streams = [];
    log_streams = [];
    update = none;
    replacement_token = none;
    has_status_subscription = false;
    calls = [];
  }

  abbrev pub id_of : Agent C M → String
  id_of a = a.token.sub

  abbrev pub called : List (AgentCall C) → Agent C M → Agent C M
  called cs a = record a { calls = a.calls ++ cs }

  abbrev pub updating_with : ℕ → Option AgentUpdateOptions → Agent C M → Agent C M × Bool
  updating_with now none a = (a, false)
  updating_with now (some u) a =
      if expired now u then (record a { update = none }, false) else (a, true)

  unfoldable pub updating : ℕ → Agent C M → Agent C M × Bool
  unfolding expired
  updating now a = updating_with now a.update a

  abbrev pub status_after : Agent C M × Bool → Agent C M × NodeConnectionStatus
  status_after (a, is_updating) =
      if is_updating || is_some a.replacement_token
      then (a, NodeConnectionStatus.updating)
      else if a.outdated
      then (a, NodeConnectionStatus.outdated)
      else (a, NodeConnectionStatus.connected)

  unfoldable pub get_connection_status :
      (List (AgentCall C) → Bool) → ℕ → Agent C M → Agent C M × NodeConnectionStatus
  unfolding updating
  get_connection_status closed now a =
      if closed a.calls
      then (a, NodeConnectionStatus.unreachable)
      else status_after (updating now a)

  -- The body of a method after `throwIfCommandsAreDisabled`.
  abbrev pub enabled_after :
      {A : Type 0} → (Agent C M → Agent C M × Result A) → Agent C M × Bool → Agent C M × Result A
  enabled_after body (a, is_updating) =
      if is_updating || is_some a.replacement_token || a.outdated
      then (a, err CruxError.precondition_failed)
      else body a

  unfoldable pub if_commands_are_enabled :
      {A : Type 0} → ℕ → (Agent C M → Agent C M × Result A) → Agent C M → Agent C M × Result A
  unfolding updating
  if_commands_are_enabled now body a = enabled_after body (updating now a)

  unfoldable pub get_deployment : String → Agent C M → Option Deployment
  get_deployment id a = lookup id a.deployments

  abbrev pub deploy_enabled : Deployment → Agent C M → Agent C M × Result (Unit {0})
  deploy_enabled d a =
      if is_some (lookup d.id a.deployments) then (a, err CruxError.conflict) else (
        called (command (AgentCommand.deploy d.id) ∷ [])
            (record a { deployments = set d.id (Deployment.start d) a.deployments }),
        ok tt,
      )

  unfoldable pub deploy : ℕ → Deployment → Agent C M → Agent C M × Result (Unit {0})
  unfolding if_commands_are_enabled
  deploy now d a = if_commands_are_enabled now (deploy_enabled d) a

  -- The reason 0, which is unspecified, is falsy.
  unfoldable pub close : Option CloseReason → Agent C M → Agent C M
  close reason a = called (close_command reason ++ complete_commands ∷ []) a

  abbrev pub send_enabled : String → Agent C M → Agent C M × Result (Unit {0})
  send_enabled c a = (called (command (AgentCommand.container_command c) ∷ []) a, ok tt)

  unfoldable pub send_container_command : ℕ → String → Agent C M → Agent C M × Result (Unit {0})
  unfolding if_commands_are_enabled
  send_container_command now c a = if_commands_are_enabled now (send_enabled c) a
