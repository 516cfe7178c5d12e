-- ===== src/ContainerStatusWatcher.antt =====
-- domain/container-status-watcher.ts, with containerPrefixNameOf of domain/agent.ts: the states of
-- the containers of a prefix, as the node reports them. What a container state holds besides its id
-- and its state is the parameter `C`. The calls on the command channel, the stream and the completer,
-- which are subjects of a library, are the effects of an operation, in order.
pub mod States
pub mod Lifecycle
use Prim.Native.String
use dyrectorio.Prelude.{
  String, Bool, true, false, not, Option, none, some, List, [], ◌∷◌, map, filter, fold, contains,
  ◌==◌, string_eq, if◌then◌else◌, set,
}
use dyrectorio.Deployment.{ProtoContainerState}

pub record ContainerIdentifier : Type 0 where
  pub prefix : String
  pub name : String

unfoldable pub container_prefix_name_of : ContainerIdentifier → String
container_prefix_name_of id =
    if id.prefix == "" then id.name else String.◌++◌ id.prefix (String.◌++◌ "-" id.name)

abbrev pub is_removed : ProtoContainerState → Bool
is_removed ProtoContainerState.removed = true
is_removed _ = false

pub record ContainerStateItem (C : Type 0) : Type 0 where
  pub id : ContainerIdentifier
  pub state : ProtoContainerState
  pub content : C

pub record ContainerStatusWatcher (C : Type 0) : Type 0 where
  pub prefix : String
  pub one_shot : Bool
  pub started : Bool
  pub has_completer : Bool
  pub state : List (String × ContainerStateItem C)

pub data Effect (C : Type 0) : Type 0 where
  command : String → Bool → Effect C
  next : String → List (ContainerStateItem C) → Effect C
  complete : Effect C
  completer_next : Effect C

module _ {C : Type 0} where
  abbrev pub new_watcher : String → Bool → ContainerStatusWatcher C
  new_watcher prefix one_shot = record {
    prefix = prefix;
    one_shot = one_shot;
    started = false;
    has_completer = false;
    state = [];
  }

  unfoldable pub start : ContainerStatusWatcher C → ContainerStatusWatcher C × List (Effect C)
  start w =
      if w.started then (w, []) else (record w { started = true }, command w.prefix w.one_shot ∷ [])

  unfoldable pub map_state_to_message : ContainerStatusWatcher C → Effect C
  map_state_to_message w = next w.prefix (map (λ e. e.1) w.state)

  abbrev pub key_of_item : ContainerStateItem C → String
  key_of_item it = container_prefix_name_of it.id

  unfoldable pub updated_state :
      List (String × ContainerStateItem C)
      → List (ContainerStateItem C)
      → List (String × ContainerStateItem C)
  updated_state state data_items =
      let removed_ids = map key_of_item (filter (λ it. is_removed it.state) data_items) in
      let updated = filter (λ it. not (is_removed it.state)) data_items in
      let state_map = filter (λ e. not (contains removed_ids e.0)) state in
      fold (λ m it. set (key_of_item it) it m) state_map updated

  abbrev pub new_state :
      List (String × ContainerStateItem C)
      → Option (List (ContainerStateItem C))
      → List (String × ContainerStateItem C)
  new_state state none = state
  new_state state (some data_items) = updated_state state data_items

  unfoldable pub update :
      ContainerStatusWatcher C
      → Option (List (ContainerStateItem C))
      → ContainerStatusWatcher C × List (Effect C)
  unfolding updated_state map_state_to_message
  update w status =
      let w' = record w { state = new_state w.state status } in (w', map_state_to_message w' ∷ [])

  abbrev pub finish : Bool → List (Effect C)
  finish has_completer = complete ∷ (if has_completer then completer_next ∷ [] else [])

  unfoldable pub stop : ContainerStatusWatcher C → ContainerStatusWatcher C × List (Effect C)
  stop w =
      if not w.started
      then (w, [])
      else (record w { started = false; has_completer = false }, finish w.has_completer)

  -- `none` is the exception that a stream is connected already.
  unfoldable pub on_node_stream_started :
      ContainerStatusWatcher C → Option (ContainerStatusWatcher C)
  on_node_stream_started w =
      if w.has_completer then none else some (record w { has_completer = true })

  unfoldable pub on_node_stream_finished :
      ContainerStatusWatcher C → ContainerStatusWatcher C × List (Effect C)
  on_node_stream_finished w =
      if not w.started
      then (w, [])
      else (record w { has_completer = false }, finish w.has_completer)

  -- `observed` is the property of the stream.
  unfoldable pub on_watcher_disconnected :
      ContainerStatusWatcher C → Bool → ContainerStatusWatcher C × List (Effect C)
  unfolding stop
  on_watcher_disconnected w observed = if not observed then stop w else (w, [])
