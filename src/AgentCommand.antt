-- ===== src/AgentCommand.antt =====
-- The messages of protobuf/proto/agent.proto that the server sends to an agent, and the errors that
-- the classes of domain/agent.ts throw. The request of a deployment stands for itself by its id, and
-- what a container command does is its text.
use dyrectorio.Prelude.{Option, ℕ, String, Bool, string_eq}
use dyrectorio.ContainerStatusWatcher.{ContainerIdentifier, container_prefix_name_of}

pub data CloseReason : Type 0 where
  unspecified close self_destruct shutdown revoke_token unrecognized : CloseReason

-- `ContainerOrPrefix`: one of the two is set.
pub data ContainerOrPrefix : Type 0 where
  container : ContainerIdentifier → ContainerOrPrefix
  prefix : String → ContainerOrPrefix

pub data AgentCommand : Type 0 where
  deploy : String → AgentCommand
  container_state : String → Bool → AgentCommand
  container_log : ContainerIdentifier → Bool → ℕ → AgentCommand
  container_inspect : ContainerIdentifier → AgentCommand
  container_command : String → AgentCommand
  list_secrets delete_containers : ContainerOrPrefix → AgentCommand
  replace_token : String → AgentCommand
  update : String → ℕ → String → AgentCommand
  close : CloseReason → AgentCommand

-- The exceptions of the classes, less their texts; `type_error` is a read through null.
pub data CruxError : Type 0 where
  conflict not_found precondition_failed unauthorized internal_server_error type_error : CruxError

pub data Result (A : Type 0) : Type 0 where
  ok : A → Result A
  err : CruxError → Result A

-- `NodeConnectionStatus` of app/node/node.dto.ts
pub data NodeConnectionStatus : Type 0 where
  unreachable connected outdated updating : NodeConnectionStatus

pub data CallbackType : Type 0 where
  list_secrets container_log container_inspect delete_containers : CallbackType

-- The messages of the event channel that the methods send.
pub data AgentConnectionMessage : Type 0 where
  joined : String → String → NodeConnectionStatus → String → ℕ → AgentConnectionMessage
  left : String → AgentConnectionMessage
  status_changed : String → NodeConnectionStatus → Option String → AgentConnectionMessage

unfoldable pub container_prefix_name_or_prefix_of : ContainerOrPrefix → String
unfolding container_prefix_name_of
container_prefix_name_or_prefix_of (ContainerOrPrefix.container id) = container_prefix_name_of id
container_prefix_name_or_prefix_of (ContainerOrPrefix.prefix p) =
    container_prefix_name_of (record { prefix = p; name = "" })
