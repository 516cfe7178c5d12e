-- ===== src/Merge/Lookup.antt =====
-- Reading a merged list by the key on which its items are told apart (domain/container-merge.ts).
use dyrectorio.Prelude.{
  true, false, not, Option, none, some, List, find, any, Eq, ◌==◌, find-append, find-or_else,
  find-filter, Bool-cases, inl, inr, ◌or_else◌, or_else-none, items, ◌≡◌, refl, sym, ◌∙◌,
}
use dyrectorio.Merge.Lists.{merge_lists, same_key}

module _ {ℓ κ} {A : Type ℓ} {K : Type κ} ⦃e : Eq K⦄ (key : A → K) where
  -- An item whose key no strong item has is kept.
  kept_of_absent :
      (k : K) (strong : List A) (w : A)
      → any (λ it. key it == k) strong ≡ false
      → (key w == k) ≡ true
      → not (any (λ it. same_key key it w) strong) ≡ true
  kept_of_absent k strong w absent same =
      let here : key w ≡ k = (e.beq_iff (key w) k).0 same in rw (here, absent)

  pub find-merge_lists :
      (k : K) (strong weak : Option (List A))
      → find (λ it. key it == k) (items (merge_lists (same_key key) strong weak))
        ≡ (find (λ it. key it == k) (items strong) or_else find (λ it. key it == k) (items weak))
  unfolding merge_lists
  find-merge_lists k none weak = refl
  find-merge_lists k (some strong) none = sym (or_else-none _)
  find-merge_lists k (some strong) (some weak) =
      let p = λ (it : A). key it == k in
      let others = find p weak in
      elim (Bool-cases (any p strong)) [
        | inl taken ↦ find-append p strong _ ∙ rw taken ((find-or_else p strong others).0 taken)
        | inr absent ↦
            find-append p strong _
            ∙ rw absent (
                find-filter p _ weak (λ w. kept_of_absent k strong w absent)
                ∙ sym ((find-or_else p strong others).1 absent))
      ]
