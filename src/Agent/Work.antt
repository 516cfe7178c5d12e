-- ===== src/Agent/Work.antt =====
-- The work that domain/agent.ts asks an agent for.
use dyrectorio.Prelude.{
  filter-append, filter_of_none, append-nil, ap, filter, ◌∙◌, Bool, Bool-cases, List, Option,
  String, [], any, any-append, arith, false, inl, inr, map, none, not, refl, some, true, ℕ, ◌++◌,
  ◌==◌, ◌∙◌, ◌∷◌, ◌≡◌, string_eq, nat_eq,
}
use dyrectorio.AgentCommand.{AgentCommand, CallbackType}
use dyrectorio.ContainerLogStream
use dyrectorio.FixedLengthLinkedList.{FixedLengthLinkedList}
use dyrectorio.ContainerLogStream.{ContainerLogStream, AgentTunnel}
use dyrectorio.ContainerLogStream.Replay
use dyrectorio.ContainerStatusWatcher
use dyrectorio.ContainerStatusWatcher.{ContainerStatusWatcher, on_node_stream_finished, stop}
use dyrectorio.ContainerStatusWatcher.Lifecycle
use dyrectorio.Agent.{AgentCall, command}
use dyrectorio.Agent.Streams.{watcher_effect}
use dyrectorio.Agent.Updates.{stop_all, cancelled_requests}
use dyrectorio.Agent.Steps.{Event, watcher_event, token_replaced, update_aborted, log_commands}

-- The commands that ask the agent for anything but a stream of a log, an update or its end.
abbrev pub is_work : AgentCommand → Bool
is_work (AgentCommand.deploy id) = true
is_work (AgentCommand.container_state p o) = true
is_work (AgentCommand.container_log c streaming t) = not streaming
is_work (AgentCommand.container_inspect c) = true
is_work (AgentCommand.container_command c) = true
is_work (AgentCommand.list_secrets t) = true
is_work (AgentCommand.delete_containers t) = true
is_work (AgentCommand.replace_token t) = true
is_work (AgentCommand.update tag n t) = false
is_work (AgentCommand.close r) = false

abbrev pub works : {C : Type 0} → AgentCall C → Bool
works (command c) = is_work c
works _ = false

-- The events that end the replacement, and the start of a watcher, which only the agent calls.
abbrev pub is_ending : {C M : Type 0} → Event C M → Bool
is_ending (token_replaced now) = true
is_ending (update_aborted now error) = true
is_ending (watcher_event prefix Lifecycle.starting) = true
is_ending _ = false

pub works-append :
    {C : Type 0} (cs calls before : List (AgentCall C))
    → any works cs ≡ false
    → filter works calls ≡ before
    → filter works (calls ++ cs) ≡ before
works-append cs calls before h same =
    filter-append works calls cs
    ∙ ap (λ l. filter works calls ++ l) (filter_of_none works cs h)
    ∙ append-nil (filter works calls)
    ∙ same

pub watcher_works :
    {C : Type 0} (prefix : String) (w : ContainerStatusWatcher C) (e : Lifecycle.Event C)
    → is_ending {M = Unit {0}} (watcher_event prefix e) ≡ false
    → any works (map (watcher_effect prefix) (Lifecycle.step w e).1) ≡ false
unfolding ContainerStatusWatcher.update ContainerStatusWatcher.stop
    ContainerStatusWatcher.on_node_stream_started ContainerStatusWatcher.on_node_stream_finished
    ContainerStatusWatcher.on_watcher_disconnected
watcher_works prefix w Lifecycle.starting h = cc
watcher_works prefix w (Lifecycle.updating s) h = ground arith
watcher_works prefix w Lifecycle.stopping h = ground arith
watcher_works prefix w Lifecycle.stream_started h = refl
watcher_works prefix w Lifecycle.stream_finished h = ground arith
watcher_works prefix w (Lifecycle.watcher_disconnected o) h = ground arith

pub finished_works :
    {C : Type 0} (prefix : String) (w : ContainerStatusWatcher C)
    → any works (map (watcher_effect prefix) (on_node_stream_finished w).1) ≡ false
unfolding on_node_stream_finished
finished_works prefix w = ground arith

pub works-stop_all :
    {C : Type 0} (ws : List (String × ContainerStatusWatcher C)) → any works (stop_all ws).1 ≡ false
works-stop_all [] = refl
works-stop_all ((prefix, w) ∷ ws) =
    any-append works (map (watcher_effect prefix) (stop w).1) (stop_all ws).1
    ∙ rw (watcher_works prefix w Lifecycle.stopping refl) (works-stop_all ws)

pub cancelled_works :
    (C : Type 0) (type : CallbackType) (requests : List (String × ℕ))
    → any works (cancelled_requests {C = C} type requests) ≡ false
cancelled_works C type [] = refl
cancelled_works C type (r ∷ requests) = cancelled_works C type requests

-- The effects of a call of a log stream that does not throw.
abbrev pub log_effects :
    {M : Type 0}
    → Option (ContainerLogStream M × List (ContainerLogStream.Effect M))
    → List (ContainerLogStream.Effect M)
log_effects none = []
log_effects (some r) = r.1

module _ (C : Type 0) {M : Type 0} where
  abbrev pub OnlyStreams : List (ContainerLogStream.Effect M) → Type 0
  OnlyStreams es = any works (log_commands {C = C} es) ≡ false

  watch_works :
      (t : Option AgentTunnel) (s : ContainerLogStream M)
      → OnlyStreams (
          (ContainerLogStream.open_tunnel t s).1
          ++ ContainerLogStream.replay s.cache.first
            ∷ ContainerLogStream.get_started_message s
            ∷ [])
  unfolding ContainerLogStream.send_command ContainerLogStream.get_started_message
  watch_works none s = refl
  watch_works (some t) s = refl

  close_works :
      (t : Option AgentTunnel) (s : ContainerLogStream M)
      → OnlyStreams (ContainerLogStream.close_agent_stream {M = M} t)
  close_works none s = refl
  close_works (some t) s = refl

  resize_works :
      (size : ℕ) (cache : Option (FixedLengthLinkedList M)) (s : ContainerLogStream M)
      → OnlyStreams (log_effects (ContainerLogStream.resize_with size cache s))
  resize_works size none s = refl
  resize_works size (some cache) s = close_works s.current_tunnel s

  connect_works :
      (t : Option AgentTunnel) (s : ContainerLogStream M)
      → OnlyStreams (ContainerLogStream.connect_tunnel t s).1
  connect_works none s = refl
  connect_works (some t) s = elim (Bool-cases t.agent_connected) [
    | inl e ↦ rw e refl
    | inr e ↦ rw e refl
  ]

  finish_works :
      (t : Option AgentTunnel) (watched : Bool) (s : ContainerLogStream M)
      → OnlyStreams (ContainerLogStream.finish_tunnel t watched s).1
  unfolding ContainerLogStream.send_command
  finish_works none watched s = refl
  finish_works (some t) true s = refl
  finish_works (some t) false s = refl

  pub log_works :
      (s : ContainerLogStream M) (e : Replay.Event M) → OnlyStreams (log_effects (Replay.step s e))
  unfolding ContainerLogStream.watch ContainerLogStream.resize ContainerLogStream.on_message
      ContainerLogStream.on_agent_stream_started ContainerLogStream.on_agent_stream_finished
      ContainerLogStream.get_started_message
  log_works s Replay.watching = watch_works s.current_tunnel s
  log_works s (Replay.resizing size) = elim (Bool-cases (s.tail == size)) [
    | inl e ↦ rw e refl
    | inr e ↦ rw e (resize_works size _ s)
  ]
  log_works s Replay.stream_started = connect_works s.current_tunnel s
  log_works s (Replay.message m) = refl
  log_works s (Replay.stream_finished watched) = finish_works s.current_tunnel watched s
