-- ===== src/Merge/Ranges.antt =====
-- Merging lists keeps their items apart (domain/container-merge.ts).
use dyrectorio.Prelude.{
  Bool, true, not, ◌&&◌, Option, none, some, List, [], ◌∷◌, ◌++◌, filter, any, all, all-append,
  all-filter, all-filter_of_all, items, ◌≡◌, refl, arith,
}
use dyrectorio.Merge.Lists.{merge_lists}

-- No item is related to an earlier one.
abbrev pub all_apart {ℓ} : {A : Type ℓ} → (A → A → Bool) → List A → Bool
all_apart r [] = true
all_apart r (x ∷ xs) = all (λ y. not (r x y)) xs && all_apart r xs

module _ {ℓ} {A : Type ℓ} (r : A → A → Bool) where
  pub all_apart-append :
      (xs ys : List A)
      → all_apart r xs ≡ true
      → all_apart r ys ≡ true
      → all (λ x. all (λ y. not (r x y)) ys) xs ≡ true
      → all_apart r (xs ++ ys) ≡ true
  all_apart-append [] ys h k l = k
  all_apart-append (x ∷ xs) ys h k l =
      ground (arith, all_apart-append xs ys, all-append (λ y. not (r x y)) xs ys)

  pub all_apart-filter :
      (q : A → Bool) (xs : List A) → all_apart r xs ≡ true → all_apart r (filter q xs) ≡ true
  all_apart-filter q [] h = refl
  all_apart-filter q (x ∷ xs) h =
      ground (arith, all_apart-filter q xs, all-filter_of_all (λ y. not (r x y)) q xs)

module _ {ℓ} {A : Type ℓ} (r taken : A → A → Bool)
    (implied : (x y : A) → r x y ≡ true → taken x y ≡ true) where
  -- What the filter keeps is apart from all of `part`, a part of `strong`.
  kept_apart :
      (strong weak part : List A)
      → ((w : A) → any (λ it. taken it w) part ≡ true → any (λ it. taken it w) strong ≡ true)
      → all
          (λ x. all (λ y. not (r x y)) (filter (λ w. not (any (λ it. taken it w) strong)) weak))
          part
        ≡ true
  kept_apart strong weak [] h = refl
  kept_apart strong weak (x ∷ part) h =
      let here =
        all-filter (λ y. not (r x y)) (λ w. not (any (λ it. taken it w) strong)) weak
          (λ w free. ground (arith, h w, implied x w)) in
      let later = kept_apart strong weak part (λ w t. h w (ground arith)) in rw (here, later) refl

  pub merge_lists_apart :
      (strong weak : Option (List A))
      → all_apart r (items strong) ≡ true
      → all_apart r (items weak) ≡ true
      → all_apart r (items (merge_lists taken strong weak)) ≡ true
  unfolding merge_lists
  merge_lists_apart none weak h k = k
  merge_lists_apart (some strong) none h k = h
  merge_lists_apart (some strong) (some weak) h k =
      all_apart-append r strong _ h (all_apart-filter r _ weak k)
        (kept_apart strong weak strong (λ w t. t))
