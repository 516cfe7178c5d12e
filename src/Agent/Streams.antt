-- ===== src/Agent/Streams.antt =====
-- The container states and the container logs that domain/agent.ts streams from an agent.
use dyrectorio.Prelude.{
  Bool, Option, String, filter, lookup, map, none, not, set, some, ℕ, ◌==◌, string_eq, nat_eq,
}
use dyrectorio.AgentCommand.{AgentCommand, CruxError, Result, ok, err}
use dyrectorio.ContainerLogStream.{ContainerLogStream, new_stream}
use dyrectorio.ContainerStatusWatcher
use dyrectorio.ContainerStatusWatcher.{
  ContainerIdentifier, ContainerStatusWatcher, container_prefix_name_of, new_watcher,
  on_node_stream_started, on_node_stream_finished,
}
use dyrectorio.Agent.{Agent, AgentCall, command, watcher_call, called, if_commands_are_enabled}

abbrev pub watcher_effect : {C : Type 0} → String → ContainerStatusWatcher.Effect C → AgentCall C
watcher_effect prefix (ContainerStatusWatcher.command p one_shot) =
    command (AgentCommand.container_state p one_shot)
watcher_effect prefix (ContainerStatusWatcher.next p its) =
    watcher_call prefix (ContainerStatusWatcher.next p its)
watcher_effect prefix ContainerStatusWatcher.complete =
    watcher_call prefix ContainerStatusWatcher.complete
watcher_effect prefix ContainerStatusWatcher.completer_next =
    watcher_call prefix ContainerStatusWatcher.completer_next

abbrev pub found_stream :
    {M : Type 0} → Option (ContainerLogStream M) → Result (ContainerLogStream M)
found_stream none = err CruxError.not_found
found_stream (some stream) = ok stream

module _ {C M : Type 0} where
  abbrev pub upsert_watcher :
      Option (ContainerStatusWatcher C)
      → String
      → Bool
      → Agent C M
      → Agent C M × Result (ContainerStatusWatcher C)
  upsert_watcher (some watcher) prefix one_shot a = (a, ok watcher)
  upsert_watcher none prefix one_shot a =
      let started = ContainerStatusWatcher.start (new_watcher prefix one_shot) in
      (
        called (map (watcher_effect prefix) started.1)
            (record a { status_streams = set prefix started.0 a.status_streams }),
        ok started.0,
      )

  abbrev pub watcher_enabled :
      String → Bool → Agent C M → Agent C M × Result (ContainerStatusWatcher C)
  watcher_enabled prefix one_shot a =
      upsert_watcher (lookup prefix a.status_streams) prefix one_shot a

  unfoldable pub upsert_container_status_watcher :
      ℕ → String → Bool → Agent C M → Agent C M × Result (ContainerStatusWatcher C)
  unfolding if_commands_are_enabled
  upsert_container_status_watcher now prefix one_shot a =
      if_commands_are_enabled now (watcher_enabled prefix one_shot) a

  unfoldable pub get_container_log_stream :
      ContainerIdentifier → Agent C M → Result (ContainerLogStream M)
  get_container_log_stream container a =
      found_stream (lookup (container_prefix_name_of container) a.log_streams)

  abbrev pub upsert_stream :
      Option (ContainerLogStream M)
      → Option (ContainerLogStream M)
      → String
      → Agent C M
      → Agent C M × Result (ContainerLogStream M)
  upsert_stream (some stream) created key a = (a, ok stream)
  upsert_stream none none key a = (a, err CruxError.type_error)
  upsert_stream none (some stream) key a =
      (record a { log_streams = set key stream a.log_streams }, ok stream)

  abbrev pub stream_enabled :
      ContainerIdentifier → ℕ → Agent C M → Agent C M × Result (ContainerLogStream M)
  stream_enabled container tail a =
      let key = container_prefix_name_of container in
      upsert_stream (lookup key a.log_streams) (new_stream container tail) key a

  -- The stream of an agent frees itself by `delete_log_stream`.
  unfoldable pub upsert_container_log_stream :
      ℕ → ContainerIdentifier → ℕ → Agent C M → Agent C M × Result (ContainerLogStream M)
  unfolding if_commands_are_enabled
  upsert_container_log_stream now container tail a =
      if_commands_are_enabled now (stream_enabled container tail) a

  unfoldable pub delete_log_stream : String → Agent C M → Agent C M
  delete_log_stream key a = record a { log_streams = filter (λ e. not (e.0 == key)) a.log_streams }

  unfoldable pub on_container_log_stream_started :
      ContainerIdentifier → Agent C M → Option (ContainerLogStream M)
  on_container_log_stream_started container a =
      lookup (container_prefix_name_of container) a.log_streams

  abbrev pub stream_started :
      String
      → Option (ContainerStatusWatcher C)
      → Agent C M
      → Agent C M × Result (Option (ContainerStatusWatcher C))
  stream_started prefix none a = (a, err CruxError.precondition_failed)
  stream_started prefix (some watcher) a =
      (record a { status_streams = set prefix watcher a.status_streams }, ok (some watcher))

  abbrev pub watcher_stream_started :
      String
      → Option (ContainerStatusWatcher C)
      → Agent C M
      → Agent C M × Result (Option (ContainerStatusWatcher C))
  watcher_stream_started prefix none a = (a, ok none)
  watcher_stream_started prefix (some watcher) a =
      stream_started prefix (on_node_stream_started watcher) a

  -- The completer that is returned with the watcher is the watcher's.
  unfoldable pub on_container_state_stream_started :
      String → Agent C M → Agent C M × Result (Option (ContainerStatusWatcher C))
  on_container_state_stream_started prefix a =
      watcher_stream_started prefix (lookup prefix a.status_streams) a

  abbrev pub watcher_stream_finished :
      String → Option (ContainerStatusWatcher C) → Agent C M → Agent C M
  watcher_stream_finished prefix none a = a
  watcher_stream_finished prefix (some watcher) a =
      called (map (watcher_effect prefix) (on_node_stream_finished watcher).1)
        (record a { status_streams = filter (λ e. not (e.0 == prefix)) a.status_streams })

  unfoldable pub on_container_status_stream_finished : String → Agent C M → Agent C M
  on_container_status_stream_finished prefix a =
      watcher_stream_finished prefix (lookup prefix a.status_streams) a
