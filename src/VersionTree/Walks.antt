-- ===== src/VersionTree/Walks.antt =====
-- The walks of domain/utils.ts end, and what they find.
use dyrectorio.Prelude.{
  append-nil, append_assoc, refl, ap, sym, inl, inr, Bool-cases, List, Option, Option-cases, String,
  [], arith, false, inl, inr, none, refl, some, suc, zero, ℕ, ◌++◌, ◌<◌, ◌==◌, ◌∷◌, ◌≡◌, ◌⊎◌,
  string_eq, nat_eq, ◌∙◌, Bool, not,
}
use dyrectorio.VersionTree.{
  follow_children, collect_parents, collect_parent_version_ids, collect_children,
  collect_child_version_ids,
}

-- There is a parent, by an id that is not empty.
abbrev pub is_target : Option String → Bool
is_target none = false
is_target (some id) = not (id == "")

-- The ancestors of a version, from its parent on, up to a version without one.
pub data Ancestors (parent_of : String → Option String) : String → List String → Type 0 where
  root : {v : String} → is_target (parent_of v) ≡ false → Ancestors parent_of v []
  child :
      {v p : String} {ids : List String}
      → parent_of v ≡ some p
      → (p == "") ≡ false
      → Ancestors parent_of p ids
      → Ancestors parent_of v (p ∷ ids)

module _ (parent_of : String → Option String) (age : String → ℕ)
    (older : (v p : String) → parent_of v ≡ some p → age p < age v) where
  collect_parents-Ancestors :
      (fuel : ℕ) (v : String) (result : List String)
      → age v < fuel
      → (ids : List String) × (collect_parents fuel parent_of v result ≡ some (result ++ ids))
        × Ancestors parent_of v ids
  unfolding collect_parents
  collect_parents-Ancestors zero v result enough = absurd (omega arith)
  collect_parents-Ancestors (suc fuel) v result enough = elim (Option-cases (parent_of v)) [
    | inl none_left ↦
        ([], rw none_left (ap some (sym (append-nil result))), root (rw none_left refl))
    | inr (p, found) ↦ elim (Bool-cases (p == "")) [
      | inl empty ↦
          ([], rw (found, empty) (ap some (sym (append-nil result))), root (rw (found, empty) refl))
      | inr other ↦
          let (ids, same, rest) =
            collect_parents-Ancestors fuel p (result ++ p ∷ []) (omega (arith, older v p found)) in
          (
            p ∷ ids,
            rw (found, other) (same ∙ ap some (append_assoc result (p ∷ []) ids)),
            child found other rest,
          )
    ]
  ]

  -- Where every version is younger than its parent, the walk over the parents ends, whatever fuel
  -- above the age of the version it has, and returns the ancestors of the version in order.
  pub collect_parent_version_ids-Ancestors :
      (fuel : ℕ) (v : String)
      → age v < fuel
      → (ids : List String) × (collect_parent_version_ids fuel parent_of v ≡ some ids)
        × Ancestors parent_of v ids
  unfolding collect_parent_version_ids
  collect_parent_version_ids-Ancestors fuel v enough = collect_parents-Ancestors fuel v [] enough

collect_parents_loop :
    (parent_of : String → Option String) (v : String) (fuel : ℕ) (result : List String)
    → parent_of v ≡ some v
    → (v == "") ≡ false
    → collect_parents fuel parent_of v result ≡ none
unfolding collect_parents
collect_parents_loop parent_of v zero result own named = refl
collect_parents_loop parent_of v (suc fuel) result own named =
    rw (own, named) (collect_parents_loop parent_of v fuel (result ++ v ∷ []) own named)

-- A version that is its own parent is walked without an end.
pub collect_parent_version_ids_loop :
    (parent_of : String → Option String) (v : String) (fuel : ℕ)
    → parent_of v ≡ some v
    → (v == "") ≡ false
    → collect_parent_version_ids fuel parent_of v ≡ none
unfolding collect_parent_version_ids
collect_parent_version_ids_loop parent_of v fuel own named =
    collect_parents_loop parent_of v fuel [] own named

follow_children_lem :
    (walk : List String → List String → Option (List String)) (result children : List String)
    → ((ts : List String) → (walk ts result ≡ none) ⊎ (walk ts result ≡ some result))
    → (follow_children walk result children ≡ none)
      ⊎ (follow_children walk result children ≡ some result)
follow_children_lem walk result [] h = inr refl
follow_children_lem walk result (c ∷ cs) h = h (c ∷ cs)

-- Where the walk over the children ends, it returns no id.
collect_children_lem :
    (fuel : ℕ) (children_of : List String → List String) (targets result : List String)
    → (collect_children fuel children_of targets result ≡ none)
      ⊎ (collect_children fuel children_of targets result ≡ some result)
unfolding collect_children
collect_children_lem zero children_of targets result = inl refl
collect_children_lem (suc fuel) children_of targets result =
    follow_children_lem (collect_children fuel children_of) result (children_of targets)
      (λ ts. collect_children_lem fuel children_of ts result)

-- Whatever the versions are, the walk over the children of a version finds no id where it ends.
pub collect_child_version_ids_lem :
    (fuel : ℕ) (children_of : List String → List String) (v : String)
    → (collect_child_version_ids fuel children_of v ≡ none)
      ⊎ (collect_child_version_ids fuel children_of v ≡ some [])
unfolding collect_child_version_ids
collect_child_version_ids_lem fuel children_of v = collect_children_lem fuel children_of (v ∷ []) []
