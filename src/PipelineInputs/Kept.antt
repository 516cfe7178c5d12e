-- ===== src/PipelineInputs/Kept.antt =====
-- What mergeEventWatcherInputs of domain/pipeline.ts keeps of its two lists.
use dyrectorio.Prelude.{
  any-append, sym, append_assoc, Bool, true, false, not, ◌&&◌, List, [], ◌∷◌, ◌++◌, fold, filter,
  any, fold-append, string_eq, ◌==◌, beq_refl, ◌≡◌, refl, ◌∙◌, arith, Bool-cases, inl, inr, or-true,
}
use dyrectorio.Container.{UniqueKeyValue}
use dyrectorio.PipelineInputs.{same_input, merge_input, merge_event_watcher_inputs}

-- No input of the list has the id or the key of the item.
abbrev pub is_untouched : List UniqueKeyValue → UniqueKeyValue → Bool
is_untouched watcher_inputs it = not (any (λ w. same_input w it) watcher_inputs)

filter-merge_input :
    (p : UniqueKeyValue → Bool) (inputs : List UniqueKeyValue) (w : UniqueKeyValue)
    → p w ≡ false
    → ((it : UniqueKeyValue) → same_input w it ≡ true → p it ≡ false)
    → filter p (merge_input inputs w) ≡ filter p inputs
unfolding merge_input
filter-merge_input p [] w h k = rw h refl
filter-merge_input p (it ∷ inputs) w h k = elim (Bool-cases (same_input w it)) [
  | inl same ↦ rw (same, h, k it same) refl
  | inr other ↦ rw (other, filter-merge_input p inputs w h k) refl
]

same_input_self : (w : UniqueKeyValue) → same_input w w ≡ true
same_input_self w = rw (beq_refl w.id) refl

touched :
    (seen ws : List UniqueKeyValue) (w it : UniqueKeyValue)
    → same_input w it ≡ true
    → is_untouched ((seen ++ w ∷ []) ++ ws) it ≡ false
touched seen ws w it h = ground (
  arith,
  any-append (λ v. same_input v it) (seen ++ w ∷ []) ws,
  any-append (λ v. same_input v it) seen (w ∷ []),
)

untouched-fold :
    (seen ws inputs : List UniqueKeyValue)
    → filter (is_untouched (seen ++ ws)) (fold merge_input inputs ws)
      ≡ filter (is_untouched (seen ++ ws)) inputs
untouched-fold seen [] inputs = refl
untouched-fold seen (w ∷ ws) inputs = rw (sym (append_assoc seen (w ∷ []) ws)) (
    untouched-fold (seen ++ w ∷ []) ws (merge_input inputs w)
    ∙ filter-merge_input (is_untouched ((seen ++ w ∷ []) ++ ws)) inputs w
        (touched seen ws w w (same_input_self w)) (touched seen ws w))

abbrev pub is_input : UniqueKeyValue → UniqueKeyValue → Bool
is_input w it = it.id == w.id && it.key == w.key && it.value == w.value

is_input_self : (w : UniqueKeyValue) → is_input w w ≡ true
is_input_self w = rw (beq_refl w.id, beq_refl w.key, beq_refl w.value) refl

has-merge_input :
    (inputs : List UniqueKeyValue) (w : UniqueKeyValue)
    → any (is_input w) (merge_input inputs w) ≡ true
unfolding merge_input
has-merge_input [] w = rw (is_input_self w) refl
has-merge_input (it ∷ inputs) w = elim (Bool-cases (same_input w it)) [
  | inl same ↦ rw (same, is_input_self w) refl
  | inr other ↦ rw (other, has-merge_input inputs w) (simp or-true)
]

-- The inputs of the result that share neither their id nor their key with an input of the event
-- watcher are those of the pipeline, in their order, and the last input of the watcher is in the
-- result.
pub merge_event_watcher_inputs_lem :
    (pipeline_inputs ws : List UniqueKeyValue) (w : UniqueKeyValue)
    → let result = merge_event_watcher_inputs pipeline_inputs (ws ++ w ∷ []) in
      (filter (is_untouched (ws ++ w ∷ [])) result
        ≡ filter (is_untouched (ws ++ w ∷ [])) pipeline_inputs)
      × (any (is_input w) result ≡ true)
unfolding merge_event_watcher_inputs
merge_event_watcher_inputs_lem pipeline_inputs ws w = (
  untouched-fold [] (ws ++ w ∷ []) pipeline_inputs,
  rw (fold-append merge_input pipeline_inputs ws (w ∷ []))
      (has-merge_input (fold merge_input pipeline_inputs ws) w),
)
