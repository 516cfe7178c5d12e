-- ===== src/Agent/Steps.antt =====
-- Everything that happens to an agent of domain/agent.ts: a call of one of its methods at a time
-- `now`, or of a method of a deployment, a watcher or a log stream that it holds.
use dyrectorio.Prelude.{
  Bool, List, Option, String, [], any, false, if◌then◌else◌, lookup, map, none, set, some, true, ℕ,
  ◌∷◌,
}
use dyrectorio.AgentCommand.{CallbackType, CloseReason}
use dyrectorio.AgentUpdate.{AgentUpdateOptions}
use dyrectorio.ContainerLogStream
use dyrectorio.ContainerLogStream.{ContainerLogStream}
use dyrectorio.ContainerLogStream.Replay
use dyrectorio.ContainerStatusWatcher.{ContainerIdentifier, ContainerStatusWatcher}
use dyrectorio.ContainerStatusWatcher.Lifecycle
use dyrectorio.Deployment.{Deployment, DeploymentStatusMessage, on_update}
use dyrectorio.Agent.{
  Agent, AgentCall, AgentTokenReplacement, command, called, close, deploy, send_container_command,
  get_connection_status,
}
use dyrectorio.Agent.Streams.{
  watcher_effect, upsert_container_status_watcher, upsert_container_log_stream, delete_log_stream,
  on_container_state_stream_started, on_container_status_stream_finished,
}
use dyrectorio.Agent.Callbacks.{Request, fetch_callback, on_fetch_finished}
use dyrectorio.Agent.Updates.{
  replace_token, on_disconnected_agent, on_deployment_finished, start_update, on_connected,
  on_update_aborted, on_update_completed, on_token_replaced,
}

pub data Event (C M : Type 0) : Type 0 where
  deploying : ℕ → Deployment → Event C M
  deployment_progress : String → DeploymentStatusMessage → Event C M
  deployment_finished : Deployment → Event C M
  watching_states : ℕ → String → Bool → Event C M
  watcher_event : String → Lifecycle.Event C → Event C M
  state_stream_started state_stream_finished : String → Event C M
  watching_log : ℕ → ContainerIdentifier → ℕ → Event C M
  log_event : String → Replay.Event M → Event C M
  fetching : ℕ → Request → Event C M
  fetch_finished : CallbackType → String → Event C M
  sending_command : ℕ → String → Event C M
  status_read : ℕ → Event C M
  agent_connected : ℕ → Event C M
  agent_disconnected : Event C M
  closing : Option CloseReason → Event C M
  replacing_token : AgentTokenReplacement → Event C M
  token_replaced : ℕ → Event C M
  starting_update : ℕ → String → AgentUpdateOptions → Event C M
  update_aborted : ℕ → Option String → Event C M
  update_completed : ℕ → String → Event C M

module _ {M : Type 0} where
  -- The commands of a log stream, and whether it frees itself.
  abbrev pub log_commands : {C : Type 0} → List (ContainerLogStream.Effect M) → List (AgentCall C)
  log_commands [] = []
  log_commands (ContainerLogStream.command c ∷ es) = command c ∷ log_commands es
  log_commands (ContainerLogStream.log_started c t ∷ es) = log_commands es
  log_commands (ContainerLogStream.replay ms ∷ es) = log_commands es
  log_commands (ContainerLogStream.client_next m ∷ es) = log_commands es
  log_commands (ContainerLogStream.cancel_agent ∷ es) = log_commands es
  log_commands (ContainerLogStream.free ∷ es) = log_commands es
  log_commands (ContainerLogStream.thrown e ∷ es) = log_commands es

  abbrev pub is_free : ContainerLogStream.Effect M → Bool
  is_free ContainerLogStream.free = true
  is_free (ContainerLogStream.command c) = false
  is_free (ContainerLogStream.log_started c t) = false
  is_free (ContainerLogStream.replay ms) = false
  is_free (ContainerLogStream.client_next m) = false
  is_free ContainerLogStream.cancel_agent = false
  is_free (ContainerLogStream.thrown e) = false

module _ {C M : Type 0} where
  abbrev pub progressed :
      Option Deployment → String → DeploymentStatusMessage → Agent C M → Agent C M
  progressed none id message a = a
  progressed (some d) id message a = record a {
    deployments = set id (on_update d message).0 a.deployments;
  }

  abbrev pub watcher_stepped :
      Option (ContainerStatusWatcher C) → String → Lifecycle.Event C → Agent C M → Agent C M
  watcher_stepped none prefix e a = a
  watcher_stepped (some watcher) prefix e a =
      let stepped = Lifecycle.step watcher e in
      called (map (watcher_effect prefix) stepped.1)
        (record a { status_streams = set prefix stepped.0 a.status_streams })

  abbrev pub log_after :
      Option (ContainerLogStream M × List (ContainerLogStream.Effect M))
      → String
      → Agent C M
      → Agent C M
  log_after none key a = a
  log_after (some (stream, effects)) key a =
      let b =
        called (log_commands effects) (record a { log_streams = set key stream a.log_streams }) in
      if any is_free effects then delete_log_stream key b else b

  abbrev pub log_stepped :
      Option (ContainerLogStream M) → String → Replay.Event M → Agent C M → Agent C M
  log_stepped none key e a = a
  log_stepped (some stream) key e a = log_after (Replay.step stream e) key a

  abbrev pub step : (List (AgentCall C) → Bool) → Agent C M → Event C M → Agent C M
  step closed a (deploying now d) = (deploy now d a).0
  step closed a (deployment_progress id message) = progressed (lookup id a.deployments) id message a
  step closed a (deployment_finished d) = (on_deployment_finished d a).0
  step closed a (watching_states now prefix one_shot) =
      (upsert_container_status_watcher now prefix one_shot a).0
  step closed a (watcher_event prefix e) =
      watcher_stepped (lookup prefix a.status_streams) prefix e a
  step closed a (state_stream_started prefix) = (on_container_state_stream_started prefix a).0
  step closed a (state_stream_finished prefix) = on_container_status_stream_finished prefix a
  step closed a (watching_log now container tail) =
      (upsert_container_log_stream now container tail a).0
  step closed a (log_event key e) = log_stepped (lookup key a.log_streams) key e a
  step closed a (fetching now req) = (fetch_callback now req a).0
  step closed a (fetch_finished type key) = on_fetch_finished type key a
  step closed a (sending_command now c) = (send_container_command now c a).0
  step closed a (status_read now) = (get_connection_status closed now a).0
  step closed a (agent_connected now) = on_connected closed now a
  step closed a agent_disconnected = on_disconnected_agent a
  step closed a (closing reason) = close reason a
  step closed a (replacing_token r) = (replace_token r a).0
  step closed a (token_replaced now) = (on_token_replaced closed now a).0
  step closed a (starting_update now tag u) = (start_update now tag u a).0
  step closed a (update_aborted now error) = on_update_aborted closed now error a
  step closed a (update_completed now jwt) = (on_update_completed closed now jwt a).0
