-- ===== src/ContainerStatusWatcher/States.antt =====
-- What the watcher of domain/container-status-watcher.ts knows of a container.
use dyrectorio.Prelude.{
  items, ap, Bool-cases, inl, inr, String, Bool, not, ◌&&◌, Option, none, some, List, [], ◌∷◌, map,
  filter, fold, contains, any, ◌==◌, string_eq, if◌then◌else◌, set, lookup, lookup-set,
  lookup-filter, ◌or_else◌, ◌≡◌, refl, ◌∙◌, arith,
}
use dyrectorio.ContainerStatusWatcher.{
  ContainerStateItem, key_of_item, is_removed, updated_state, update, ContainerStatusWatcher,
}

module _ {C : Type 0} (k : String) where
  abbrev pub is_of : ContainerStateItem C → Bool
  is_of it = key_of_item it == k

  -- The last item of the container that is not removed.
  abbrev pub last_present : List (ContainerStateItem C) → Option (ContainerStateItem C)
  last_present [] = none
  last_present (it ∷ its) =
      last_present its or_else (if is_of it && not (is_removed it.state) then some it else none)

  lookup-updates :
      (its : List (ContainerStateItem C)) (m : List (String × ContainerStateItem C))
      → lookup k (
          fold (λ m it. set (key_of_item it) it m) m (filter (λ it. not (is_removed it.state)) its))
        ≡ (last_present its or_else lookup k m)
  lookup-updates [] m = refl
  lookup-updates (it ∷ its) m = elim (Bool-cases (is_removed it.state)) [
    | inl gone ↦ rw gone (lookup-updates its m ∙ ground arith)
    | inr present ↦ rw present (
        lookup-updates its (set (key_of_item it) it m)
        ∙ rw (lookup-set (key_of_item it) k it m) (ground arith))
  ]

  removed-any :
      (its : List (ContainerStateItem C))
      → contains (map key_of_item (filter (λ it. is_removed it.state) its)) k
        ≡ any (λ it. is_of it && is_removed it.state) its
  removed-any [] = refl
  removed-any (it ∷ its) = ground (arith, removed-any its)

  lookup-updated_state :
      (state : List (String × ContainerStateItem C)) (its : List (ContainerStateItem C))
      → lookup k (updated_state state its) ≡ (
          last_present its
          or_else (if any (λ it. is_of it && is_removed it.state) its
              then none
              else lookup k state))
  unfolding updated_state
  lookup-updated_state state its =
      let removed_ids = map key_of_item (filter (λ it. is_removed it.state) its) in
      lookup-updates its (filter (λ e. not (contains removed_ids e.0)) state)
      ∙ ap (λ o. last_present its or_else o)
          (lookup-filter (λ j. not (contains removed_ids j)) k state
            ∙ rw (removed-any its) (ground arith))

  -- After a message, the state of a container is the last item of the message that is of it and is
  -- not removed; if there is none, it is gone where an item says that it is removed, and else it is
  -- what it was. A message without data changes nothing.
  pub lookup-update :
      (w : ContainerStatusWatcher C) (status : Option (List (ContainerStateItem C)))
      → lookup k (update w status).0.state ≡ (
          last_present (items status)
          or_else (if any (λ it. is_of it && is_removed it.state) (items status)
              then none
              else lookup k w.state))
  unfolding update
  lookup-update w none = refl
  lookup-update w (some data_items) = lookup-updated_state w.state data_items
