-- ===== src/ContainerStatusWatcher/Lifecycle.antt =====
-- The order of the effects of the watcher of domain/container-status-watcher.ts.
use dyrectorio.Prelude.{
  String, Bool, true, false, not, ◌&&◌, ◌||◌, Option, none, some, List, [], ◌∷◌, ◌++◌, ◌≡◌, refl,
  arith,
}
use dyrectorio.ContainerStatusWatcher.{
  ContainerStateItem, ContainerStatusWatcher, Effect, command, next, complete, completer_next,
  new_watcher, start, update, stop, on_node_stream_started, on_node_stream_finished,
  on_watcher_disconnected,
}

-- A call of a method of the watcher.
pub data Event (C : Type 0) : Type 0 where
  starting : Event C
  updating : Option (List (ContainerStateItem C)) → Event C
  stopping : Event C
  stream_started : Event C
  stream_finished : Event C
  watcher_disconnected : Bool → Event C

module _ {C : Type 0} where
  -- A call that throws leaves the watcher as it is.
  abbrev pub or_unchanged :
      ContainerStatusWatcher C → Option (ContainerStatusWatcher C) → ContainerStatusWatcher C
  or_unchanged w none = w
  or_unchanged w (some w') = w'

  abbrev pub step : ContainerStatusWatcher C → Event C → ContainerStatusWatcher C × List (Effect C)
  step w starting = start w
  step w (updating status) = update w status
  step w stopping = stop w
  step w stream_started = (or_unchanged w (on_node_stream_started w), [])
  step w stream_finished = on_node_stream_finished w
  step w (watcher_disconnected observed) = on_watcher_disconnected w observed

  abbrev pub effects : ContainerStatusWatcher C → List (Event C) → List (Effect C)
  effects w [] = []
  effects w (e ∷ es) = (step w e).1 ++ effects (step w e).0 es

  -- The stream and the completer are finished only after a command was sent.
  abbrev pub in_order : Bool → List (Effect C) → Bool
  in_order sent [] = true
  in_order sent (command prefix one_shot ∷ es) = in_order true es
  in_order sent (next prefix its ∷ es) = in_order sent es
  in_order sent (complete ∷ es) = sent && in_order sent es
  in_order sent (completer_next ∷ es) = sent && in_order sent es

  effects-in_order :
      (w : ContainerStatusWatcher C) (sent : Bool) (es : List (Event C))
      → (not w.started || sent) ≡ true
      → in_order sent (effects w es) ≡ true
  unfolding start update stop on_node_stream_started on_node_stream_finished on_watcher_disconnected
  effects-in_order w sent [] h = refl
  effects-in_order w sent (starting ∷ es) h =
      ground (arith, effects-in_order w sent es, effects-in_order (start w).0 true es)
  effects-in_order w sent (updating status ∷ es) h = effects-in_order (update w status).0 sent es h
  effects-in_order w sent (stopping ∷ es) h = ground (arith, effects-in_order (stop w).0 sent es)
  effects-in_order w sent (stream_started ∷ es) h =
      ground (arith, effects-in_order (step w stream_started).0 sent es)
  effects-in_order w sent (stream_finished ∷ es) h =
      ground (arith, effects-in_order (step w stream_finished).0 sent es)
  effects-in_order w sent (watcher_disconnected observed ∷ es) h =
      ground (arith, effects-in_order (step w (watcher_disconnected observed)).0 sent es)

  -- Whatever methods of a new watcher are called, in whatever order, its stream and its completer
  -- are finished only after it has sent its command to the node.
  pub new_watcher-in_order :
      (prefix : String) (one_shot : Bool) (es : List (Event C))
      → in_order false (effects (new_watcher prefix one_shot) es) ≡ true
  new_watcher-in_order prefix one_shot es =
      effects-in_order (new_watcher prefix one_shot) false es refl
