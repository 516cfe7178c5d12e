-- ===== src/PipelineInputs.antt =====
-- mergeEventWatcherInputs of domain/pipeline.ts: the inputs of a pipeline, with those of the event
-- watcher that triggers it.
pub mod Kept
use dyrectorio.Prelude.{Bool, ◌||◌, List, [], ◌∷◌, fold, ◌==◌, string_eq, if◌then◌else◌}
use dyrectorio.Container.{UniqueKeyValue}

abbrev pub same_input : UniqueKeyValue → UniqueKeyValue → Bool
same_input watcher_input it = watcher_input.id == it.id || watcher_input.key == it.key

-- `findIndex`, and the assignment at the index or the `push`
unfoldable pub merge_input : List UniqueKeyValue → UniqueKeyValue → List UniqueKeyValue
merge_input [] watcher_input = watcher_input ∷ []
merge_input (it ∷ inputs) watcher_input =
    let rest = merge_input inputs watcher_input in
    if same_input watcher_input it then watcher_input ∷ inputs else it ∷ rest

unfoldable pub merge_event_watcher_inputs :
    List UniqueKeyValue → List UniqueKeyValue → List UniqueKeyValue
unfolding merge_input
merge_event_watcher_inputs pipeline_inputs event_watcher_inputs =
    fold merge_input pipeline_inputs event_watcher_inputs
