-- ===== src/Tests/Shared.antt =====
-- The linked list of bounded length, the watcher of container states, and the
-- inputs of pipelines.
use mathlib.Core.Option
use dyrectorio.Prelude.{
  refl, filter, any, String, true, false, lookup, ℕ, some, List, [], ◌∷◌, ◌≡◌, pos, fold, none,
}
use dyrectorio.Deployment.{ProtoContainerState}
use dyrectorio.ContainerStatusWatcher.{
  ContainerStateItem, new_watcher, update, container_prefix_name_of,
}
use dyrectorio.ContainerStatusWatcher.States.{lookup-update}
use dyrectorio.ContainerStatusWatcher.Lifecycle.{
  Event, starting, updating, stopping, stream_started, stream_finished, effects, in_order,
  new_watcher-in_order,
}
use dyrectorio.Container.{UniqueKeyValue}
use dyrectorio.PipelineInputs.{merge_event_watcher_inputs}
use dyrectorio.PipelineInputs.Kept.{is_untouched, is_input, merge_event_watcher_inputs_lem}
use dyrectorio.FixedLengthLinkedList.{new_list, push}
use dyrectorio.FixedLengthLinkedList.Calls.{
  Operation, push_item, resize_to, calls, view, new_list-calls, push-last_items,
}

abbrev some_calls : List (Operation ℕ)
some_calls = push_item 1 ∷ push_item 2 ∷ push_item 3 ∷ resize_to 1 ∷ push_item 4 ∷ []

new_list-calls_example : Option.map view (calls (new_list (pos 2)) some_calls) ≡ some (4 ∷ [], 1)
new_list-calls_example = new_list-calls 2 some_calls

abbrev one_to_three : List ℕ
one_to_three = 1 ∷ 2 ∷ 3 ∷ []

-- A list of the bound 0 keeps the last item.
push-last_items_test :
    Option.map (λ s. (fold push s one_to_three).first) (new_list (pos 0)) ≡ some (3 ∷ [])
push-last_items_test = push-last_items 0 one_to_three

abbrev report : String → ProtoContainerState → ContainerStateItem ℕ
report name state = record {
  id = record { prefix = "pr"; name = name };
  state = state;
  content = 0;
}

-- A container that is removed and created again within one message is kept.
lookup-update_example :
    lookup "pr-web"
      (update (new_watcher "pr" false) (
        some (
          report "web" ProtoContainerState.removed
          ∷ report "web" ProtoContainerState.running
          ∷ []))).0.state
    ≡ some (report "web" ProtoContainerState.running)
unfolding container_prefix_name_of
lookup-update_example = lookup-update "pr-web" (new_watcher "pr" false) (
    some (report "web" ProtoContainerState.removed ∷ report "web" ProtoContainerState.running ∷ []))

abbrev some_events : List (Event ℕ)
some_events = stopping ∷ starting ∷ stream_started ∷ updating none ∷ stream_finished ∷ stopping ∷ []

new_watcher-in_order_example : in_order false (effects (new_watcher "pr" false) some_events) ≡ true
new_watcher-in_order_example = new_watcher-in_order "pr" false some_events

abbrev input : String → String → String → UniqueKeyValue
input id key value = record { id = id; key = key; value = value }

abbrev pipeline_inputs : List UniqueKeyValue
pipeline_inputs = input "1" "image" "alpine" ∷ input "2" "tag" "latest" ∷ []

merge_event_watcher_inputs-kept_test :
    (filter
        (is_untouched (input "9" "tag" "edge" ∷ []))
        (merge_event_watcher_inputs pipeline_inputs (input "9" "tag" "edge" ∷ []))
      ≡ input "1" "image" "alpine" ∷ [])
    × (any
          (is_input (input "9" "tag" "edge"))
          (merge_event_watcher_inputs pipeline_inputs (input "9" "tag" "edge" ∷ []))
        ≡ true)
merge_event_watcher_inputs-kept_test =
    merge_event_watcher_inputs_lem pipeline_inputs [] (input "9" "tag" "edge")

merge_event_watcher_inputs_test :
    merge_event_watcher_inputs pipeline_inputs (input "9" "tag" "edge" ∷ input "3" "new" "x" ∷ [])
    ≡ input "1" "image" "alpine" ∷ input "9" "tag" "edge" ∷ input "3" "new" "x" ∷ []
unfolding merge_event_watcher_inputs
merge_event_watcher_inputs_test = refl
