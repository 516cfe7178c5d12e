-- ===== src/FixedLengthLinkedList/Calls.antt =====
-- Sequences of calls on a list of shared/fixed-length-linked-list.ts.
use mathlib.Core.Option
use dyrectorio.Prelude.{
  ℕ, Option, none, some, List, [], ◌∷◌, ◌++◌, ◌≡◌, refl, ◌∙◌, arith, pos, fold, ap, sym,
  append_assoc, append-nil,
}
use dyrectorio.FixedLengthLinkedList.{FixedLengthLinkedList, new_list, push, clear, resize}
use dyrectorio.FixedLengthLinkedList.Window.{
  capacity, last_items, IsValid, push-window, resize-window, last_items-append, last_items_all,
  push-max_size, length-last_items-capacity,
}

-- A call of a method, with a size that is not negative.
pub data Operation (A : Type 0) : Type 0 where
  push_item : A → Operation A
  clear_items : Operation A
  resize_to : ℕ → Operation A

module _ {A : Type 0} where
  abbrev pub call : FixedLengthLinkedList A → Operation A → Option (FixedLengthLinkedList A)
  call s (push_item item) = some (push s item)
  call s clear_items = some (clear s)
  call s (resize_to size) = resize s (pos size)

  -- The calls in order, until one throws.
  abbrev pub calls :
      Option (FixedLengthLinkedList A) → List (Operation A) → Option (FixedLengthLinkedList A)
  calls none [] = none
  calls none (o ∷ os) = none
  calls (some s) [] = some s
  calls (some s) (o ∷ os) = calls (call s o) os

  -- The items that are iterated, and the bound, by what the methods promise.
  abbrev pub window : List A × ℕ → Operation A → List A × ℕ
  window (items, size) (push_item item) = (last_items (capacity size) (items ++ item ∷ []), size)
  window (items, size) clear_items = ([], size)
  window (items, size) (resize_to new_size) = (last_items new_size items, new_size)

  abbrev pub view : FixedLengthLinkedList A → List A × ℕ
  view s = (s.first, s.max_size)

  calls-window :
      (s : FixedLengthLinkedList A) (os : List (Operation A))
      → IsValid s
      → Option.map view (calls (some s) os) ≡ some (fold window (view s) os)
  unfolding clear
  calls-window s [] valid = refl
  calls-window s (push_item item ∷ os) valid =
      let (same, next) = push-window s item valid in
      calls-window (push s item) os next ∙ rw (same, push-max_size s item) refl
  calls-window s (clear_items ∷ os) valid = calls-window (clear s) os (refl, omega arith)
  calls-window s (resize_to n ∷ os) valid =
      ap (λ r. Option.map view (calls r os)) (resize-window s n valid)
      ∙ calls-window _ os (refl, length-last_items-capacity n s.first)

  -- A new list answers any sequence of pushes, clears and resizes without an error, and what is
  -- iterated in the end is the window on the items: a push keeps the last items up to the bound, one
  -- item where the bound is 0; a resize keeps the last items up to the new bound.
  pub new_list-calls :
      (n : ℕ) (os : List (Operation A))
      → Option.map view (calls (new_list (pos n)) os) ≡ some (fold window ([], n) os)
  unfolding new_list
  new_list-calls n os = calls-window _ os (refl, omega arith)

  fold-push :
      (s : FixedLengthLinkedList A) (xs : List A)
      → IsValid s
      → (fold push s xs).first ≡ last_items (capacity s.max_size) (s.first ++ xs)
  fold-push s [] (counted, bounded) = sym (
      ap (last_items (capacity s.max_size)) (append-nil s.first)
      ∙ last_items_all (capacity s.max_size) s.first (omega (arith, counted, bounded)))
  fold-push s (x ∷ xs) valid =
      let (same, next) = push-window s x valid in
      fold-push (push s x) xs next
      ∙ rw (same, push-max_size s x)
          (last_items-append (capacity s.max_size) (s.first ++ x ∷ []) xs
            ∙ ap (last_items (capacity s.max_size)) (append_assoc s.first (x ∷ []) xs))

  -- After pushes only, the last pushed items are there, as many as the bound allows but at least one.
  pub push-last_items :
      (n : ℕ) (xs : List A)
      → Option.map (λ s. (fold push s xs).first) (new_list (pos n))
        ≡ some (last_items (capacity n) xs)
  unfolding new_list
  push-last_items n xs = ap some (fold-push _ xs (refl, omega arith))
