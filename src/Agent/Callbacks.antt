-- ===== src/Agent/Callbacks.antt =====
-- The requests of domain/agent.ts that the agent answers later: `getCallback` and its callers. What a
-- fetch returns is what the callback of its type awaits.
use dyrectorio.Prelude.{List, String, false, map, ℕ}
use dyrectorio.AgentCommand.{
  AgentCommand, CallbackType, ContainerOrPrefix, Result, ok, container_prefix_name_or_prefix_of,
}
use dyrectorio.AgentCallback
use dyrectorio.AgentCallback.{
  AgentCallback, AgentError, FetchEffect, fetch, finished, on_response, on_error,
}
use dyrectorio.ContainerStatusWatcher.{ContainerIdentifier, container_prefix_name_of}
use dyrectorio.Agent.{Agent, AgentCall, command, awaited, called, if_commands_are_enabled}

-- `ListSecretsRequest`, `ContainerLogRequest`, `ContainerInspectRequest` and `DeleteContainersRequest`
pub data Request : Type 0 where
  list_secrets delete_containers : ContainerOrPrefix → Request
  container_log : ContainerIdentifier → ℕ → Request
  container_inspect : ContainerIdentifier → Request

abbrev pub type_of : Request → CallbackType
type_of (Request.list_secrets target) = CallbackType.list_secrets
type_of (Request.delete_containers target) = CallbackType.delete_containers
type_of (Request.container_log container tail) = CallbackType.container_log
type_of (Request.container_inspect container) = CallbackType.container_inspect

-- The four providers of the constructor; a log that is fetched is not streamed.
unfoldable pub key_and_command_of : Request → String × AgentCommand
unfolding container_prefix_name_of container_prefix_name_or_prefix_of
key_and_command_of (Request.list_secrets target) =
    (container_prefix_name_or_prefix_of target, AgentCommand.list_secrets target)
key_and_command_of (Request.delete_containers target) =
    (container_prefix_name_or_prefix_of target, AgentCommand.delete_containers target)
key_and_command_of (Request.container_log container tail) =
    (container_prefix_name_of container, AgentCommand.container_log container false tail)
key_and_command_of (Request.container_inspect container) =
    (container_prefix_name_of container, AgentCommand.container_inspect container)

abbrev pub fetch_call : {C : Type 0} → CallbackType → FetchEffect → AgentCall C
fetch_call type (FetchEffect.command c) = command c
fetch_call type (FetchEffect.watch request) = awaited type request

module _ {C M : Type 0} where
  abbrev pub callback_of : CallbackType → Agent C M → AgentCallback
  callback_of CallbackType.list_secrets a = a.list_secrets
  callback_of CallbackType.container_log a = a.container_log
  callback_of CallbackType.container_inspect a = a.container_inspect
  callback_of CallbackType.delete_containers a = a.delete_containers

  abbrev pub with_callback : CallbackType → AgentCallback → Agent C M → Agent C M
  with_callback CallbackType.list_secrets c a = record a { list_secrets = c }
  with_callback CallbackType.container_log c a = record a { container_log = c }
  with_callback CallbackType.container_inspect c a = record a { container_inspect = c }
  with_callback CallbackType.delete_containers c a = record a { delete_containers = c }

  abbrev pub fetched :
      CallbackType
      → AgentCallback × List FetchEffect
      → Agent C M
      → Agent C M × Result (List FetchEffect)
  fetched type (callback, effects) a =
      (called (map (fetch_call type) effects) (with_callback type callback a), ok effects)

  abbrev pub fetch_enabled : Request → Agent C M → Agent C M × Result (List FetchEffect)
  fetch_enabled req a =
      fetched (type_of req) (fetch key_and_command_of req (callback_of (type_of req) a)) a

  -- `listSecrets`, `deleteContainers`, `getContainerLog` and `inspectContainer`, by the request.
  unfoldable pub fetch_callback : ℕ → Request → Agent C M → Agent C M × Result (List FetchEffect)
  unfolding if_commands_are_enabled
  fetch_callback now req a = if_commands_are_enabled now (fetch_enabled req) a

  -- What the callback gives to `finalize`.
  unfoldable pub on_fetch_finished : CallbackType → String → Agent C M → Agent C M
  on_fetch_finished type key a = with_callback type (finished key (callback_of type a)) a

  unfoldable pub on_callback :
      {Res : Type 0} → CallbackType → String → Res → Agent C M → List (AgentCallback.Effect Res)
  on_callback type key response a = on_response key response (callback_of type a)

  unfoldable pub on_callback_error :
      {Res : Type 0}
      → CallbackType
      → String
      → AgentError
      → Agent C M
      → List (AgentCallback.Effect Res)
  on_callback_error type key error a = on_error key error (callback_of type a)
