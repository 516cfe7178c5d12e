-- ===== src/ContainerLogStream.antt =====
-- domain/container-log-stream.ts, with the state of its tunnel of domain/agent-tunnel.ts: the log of a
-- container, which the agent streams while somebody watches it. The calls on the command channel and
-- on the subjects of a library are the effects of an operation, in order; an exception is the last
-- effect. The functions given to `tap`, `map` and `finalize` are operations: `on_message` for each
-- message of the agent, `on_agent_stream_finished` at the end of its stream, and
-- `on_watcher_disconnected` at the end of a watcher's. `watched` is the library's `observed`.
pub mod Replay
use dyrectorio.Prelude.{
  ℕ, Bool, true, false, Option, none, some, List, [], ◌∷◌, ◌++◌, ◌==◌, nat_eq, if◌then◌else◌, pos,
}
use dyrectorio.AgentCommand.{AgentCommand, CruxError}
use dyrectorio.ContainerStatusWatcher.{ContainerIdentifier}
use dyrectorio.FixedLengthLinkedList
use dyrectorio.FixedLengthLinkedList.{FixedLengthLinkedList}

pub record AgentTunnel : Type 0 where
  pub agent_connected : Bool

pub record ContainerLogStream (M : Type 0) : Type 0 where
  pub container : ContainerIdentifier
  pub tail : ℕ
  pub cache : FixedLengthLinkedList M
  pub current_tunnel : Option AgentTunnel

pub data Effect (M : Type 0) : Type 0 where
  command : AgentCommand → Effect M
  log_started : ContainerIdentifier → ℕ → Effect M
  replay : List M → Effect M
  client_next : M → Effect M
  cancel_agent : Effect M
  free : Effect M
  thrown : CruxError → Effect M

module _ {M : Type 0} where
  abbrev pub new_stream_with :
      ContainerIdentifier → ℕ → Option (FixedLengthLinkedList M) → Option (ContainerLogStream M)
  new_stream_with container tail none = none
  new_stream_with container tail (some cache) =
      some (record { container = container; tail = tail; cache = cache; current_tunnel = none })

  -- `none` is the exception of the list's constructor.
  unfoldable pub new_stream : ContainerIdentifier → ℕ → Option (ContainerLogStream M)
  new_stream container tail =
      new_stream_with container tail (FixedLengthLinkedList.new_list (pos tail))

  unfoldable pub send_command : ContainerLogStream M → Effect M
  send_command s = command (AgentCommand.container_log s.container true s.tail)

  unfoldable pub get_started_message : ContainerLogStream M → Effect M
  get_started_message s = log_started s.container s.tail

  abbrev pub open_tunnel :
      Option AgentTunnel → ContainerLogStream M → ContainerLogStream M × List (Effect M)
  open_tunnel (some t) s = (s, [])
  open_tunnel none s =
      (record s { current_tunnel = some (record { agent_connected = false }) }, send_command s ∷ [])

  -- The watcher starts with what is cached, and with the started message.
  unfoldable pub watch : ContainerLogStream M → ContainerLogStream M × List (Effect M)
  unfolding send_command get_started_message
  watch s =
      let opened = open_tunnel s.current_tunnel s in
      (opened.0, opened.1 ++ replay s.cache.first ∷ get_started_message s ∷ [])

  abbrev pub close_agent_stream : Option AgentTunnel → List (Effect M)
  close_agent_stream none = []
  close_agent_stream (some t) = cancel_agent ∷ []

  abbrev pub resize_with :
      ℕ
      → Option (FixedLengthLinkedList M)
      → ContainerLogStream M
      → Option (ContainerLogStream M × List (Effect M))
  resize_with size none s = none
  resize_with size (some cache) s =
      some (record s { tail = size; cache = cache }, close_agent_stream s.current_tunnel)

  -- `none` is the exception of the list's `resize`.
  unfoldable pub resize : ContainerLogStream M → ℕ → Option (ContainerLogStream M × List (Effect M))
  resize s size =
      if s.tail == size
      then some (s, [])
      else resize_with size
          (FixedLengthLinkedList.resize (FixedLengthLinkedList.clear s.cache) (pos size)) s

  abbrev pub connect_tunnel :
      Option AgentTunnel → ContainerLogStream M → ContainerLogStream M × List (Effect M)
  connect_tunnel none s = (s, thrown CruxError.type_error ∷ [])
  connect_tunnel (some t) s =
      if t.agent_connected
      then (s, thrown CruxError.precondition_failed ∷ [])
      else (record s { current_tunnel = some (record { agent_connected = true }) }, [])

  unfoldable pub on_agent_stream_started :
      ContainerLogStream M → ContainerLogStream M × List (Effect M)
  unfolding get_started_message
  on_agent_stream_started s =
      let connected = connect_tunnel s.current_tunnel s in
      (connected.0, get_started_message s ∷ connected.1)

  -- A message of the agent is cached, and then given to the watchers.
  unfoldable pub on_message : ContainerLogStream M → M → ContainerLogStream M × List (Effect M)
  on_message s message =
      (record s { cache = FixedLengthLinkedList.push s.cache message }, client_next message ∷ [])

  -- The end of the tunnel's stream, and then `onAgenStreamFinished`.
  abbrev pub finish_tunnel :
      Option AgentTunnel → Bool → ContainerLogStream M → ContainerLogStream M × List (Effect M)
  finish_tunnel none watched s = (s, thrown CruxError.type_error ∷ [])
  finish_tunnel (some t) watched s =
      if watched
      then (
        record s { current_tunnel = some (record { agent_connected = false }) },
        send_command s ∷ [],
      )
      else (record s { current_tunnel = none }, free ∷ [])

  unfoldable pub on_agent_stream_finished :
      ContainerLogStream M → Bool → ContainerLogStream M × List (Effect M)
  unfolding send_command
  on_agent_stream_finished s watched = finish_tunnel s.current_tunnel watched s

  unfoldable pub on_watcher_disconnected : Bool → List (Effect M)
  on_watcher_disconnected watched = if watched then [] else cancel_agent ∷ []
