-- ===== src/Conflict/Ids.antt =====
-- The ids that appendConflict collects in a loop over pairs of configurations.
use dyrectorio.Prelude.{
  String, Bool, ◌&&◌, ◌||◌, Option, none, some, List, [], ◌∷◌, fold, any, any-append, contains,
  Bool-cases, inl, inr, is_some, items, ◌==◌, string_eq, beq_refl, ◌≡◌, ◌∙◌, arith,
}
use dyrectorio.Conflict.Append.{push_id, append_conflict, append_if}

contains-push_id :
    (ids : List String) (a i : String) → contains (push_id ids a) i ≡ (contains ids i || a == i)
contains-push_id ids a i = elim (Bool-cases (contains ids a)) [
  | inl old ↦ rw old (elim (Bool-cases (a == i)) [
    | inl same ↦
        let here : a ≡ i = (string_eq.beq_iff a i).0 same in
        rw (← here) (ground (arith, old, beq_refl a))
    | inr other ↦ ground arith
  ])
  | inr new ↦ rw new (any-append (λ x. x == i) ids (a ∷ []) ∙ ground arith)
]

pub contains-append_conflict :
    (conflicts : Option (List String)) (a b i : String)
    → contains (append_conflict conflicts a b) i
      ≡ (contains (items conflicts) i || (a == i || b == i))
unfolding append_conflict
contains-append_conflict none a b i = ground arith
contains-append_conflict (some ids) a b i =
    contains-push_id (push_id ids a) b i ∙ rw (contains-push_id ids a i) (ground arith)

module _ {A : Type 0} (id : A → String) (q : A → A → Bool) where
  abbrev pub collect_ids : Option (List String) → A × A → Option (List String)
  collect_ids conflicts p = append_if (q p.0 p.1) conflicts (id p.0) (id p.1)

  contains-collect_ids :
      (conflicts : Option (List String)) (p : A × A) (i : String)
      → contains (items (collect_ids conflicts p)) i
        ≡ (contains (items conflicts) i || q p.0 p.1 && (id p.0 == i || id p.1 == i))
  unfolding append_if
  contains-collect_ids conflicts p i =
      ground (arith, contains-append_conflict conflicts (id p.0) (id p.1) i)

  pub contains-fold :
      (conflicts : Option (List String)) (pairs : List (A × A)) (i : String)
      → contains (items (fold collect_ids conflicts pairs)) i ≡ (
          contains (items conflicts) i
          || any (λ p. q p.0 p.1 && (id p.0 == i || id p.1 == i)) pairs)
  contains-fold conflicts [] i = ground arith
  contains-fold conflicts (p ∷ pairs) i =
      contains-fold (collect_ids conflicts p) pairs i
      ∙ ground (arith, contains-collect_ids conflicts p i)

  pub is_some-fold :
      (conflicts : Option (List String)) (pairs : List (A × A))
      → is_some (fold collect_ids conflicts pairs)
        ≡ (is_some conflicts || any (λ p. q p.0 p.1) pairs)
  unfolding append_if
  is_some-fold conflicts [] = ground arith
  is_some-fold conflicts (p ∷ pairs) = is_some-fold (collect_ids conflicts p) pairs ∙ ground arith
