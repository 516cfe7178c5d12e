-- ===== src/FixedLengthLinkedList/Window.antt =====
-- The items of shared/fixed-length-linked-list.ts are a window on what was pushed.
use dyrectorio.Prelude.{
  ℕ, zero, suc, ◌<◌, some, List, [], ◌∷◌, ◌++◌, ltb, if◌then◌else◌, length, length-append, ◌≡◌,
  refl, ◌≤◌, arith, pos,
}
use dyrectorio.FixedLengthLinkedList.{FixedLengthLinkedList, push, push_onto, shrink, resize}

-- A list of bounded length keeps one item even where the bound is 0.
abbrev pub capacity : ℕ → ℕ
capacity zero = 1
capacity (suc n) = suc n

pub capacity_positive : (m : ℕ) → 1 ≤ capacity m
capacity_positive zero = omega arith
capacity_positive (suc m) = omega arith

capacity_full : (m n : ℕ) → m ≤ suc n → suc n ≤ capacity m → capacity m ≡ suc n
capacity_full zero n h k = omega (arith, h, k)
capacity_full (suc m) n h k = omega (arith, h, k)

capacity_room : (m n : ℕ) → n < m → suc n ≤ capacity m
capacity_room zero n h = omega (arith, h)
capacity_room (suc m) n h = omega (arith, h)

module _ {A : Type 0} where
  abbrev pub last_items : ℕ → List A → List A
  last_items n [] = []
  last_items n (x ∷ xs) =
      let rest = last_items n xs in if ltb n (suc (length xs)) then rest else x ∷ xs

  -- The length that is counted is the length of the chain, and it is within the bound.
  abbrev pub IsValid : FixedLengthLinkedList A → Type 0
  IsValid s = (s.length ≡ length s.first) × (s.length ≤ capacity s.max_size)

  pub last_items_all : (n : ℕ) (xs : List A) → length xs ≤ n → last_items n xs ≡ xs
  last_items_all n [] h = refl
  last_items_all n (x ∷ xs) h = ground arith

  length-last_items : (n : ℕ) (xs : List A) → length (last_items n xs) ≤ n
  length-last_items n [] = omega arith
  length-last_items n (x ∷ xs) = ground (arith, length-last_items n xs)

  last_items_zero : (xs : List A) → last_items 0 xs ≡ []
  last_items_zero [] = refl
  last_items_zero (x ∷ xs) = ground (arith, last_items_zero xs)

  shrink-last_items :
      (n : ℕ) (xs : List A)
      → shrink xs (length xs) n ≡ some (last_items n xs, length (last_items n xs))
  unfolding shrink
  shrink-last_items n [] = ground arith
  shrink-last_items n (x ∷ xs) = ground (arith, shrink-last_items n xs)

  pub last_items-append :
      (n : ℕ) (xs ys : List A) → last_items n (last_items n xs ++ ys) ≡ last_items n (xs ++ ys)
  last_items-append n [] ys = refl
  last_items-append n (x ∷ xs) ys = ground (arith, last_items-append n xs ys, length-append xs ys)

  pub length-last_items-capacity : (n : ℕ) (xs : List A) → length (last_items n xs) ≤ capacity n
  length-last_items-capacity zero xs = omega (arith, length-last_items 0 xs)
  length-last_items-capacity (suc n) xs = length-last_items (suc n) xs

  push_onto-max_size :
      (chain : List A) (s : FixedLengthLinkedList A) (y : A)
      → (push_onto chain s y).max_size ≡ s.max_size
  push_onto-max_size [] s y = refl
  push_onto-max_size (x ∷ chain) s y = ground arith

  pub push-max_size : (s : FixedLengthLinkedList A) (y : A) → (push s y).max_size ≡ s.max_size
  unfolding push
  push-max_size s y = push_onto-max_size s.first s y

  push_onto-window :
      (chain : List A) (s : FixedLengthLinkedList A) (y : A)
      → s.length ≡ length chain
      → s.length ≤ capacity s.max_size
      → ((push_onto chain s y).first ≡ last_items (capacity s.max_size) (chain ++ y ∷ []))
        × IsValid (push_onto chain s y)
  push_onto-window [] s y counted bounded = ground (arith, capacity_positive s.max_size)
  push_onto-window (x ∷ chain) s y counted bounded = ground (
    arith,
    length-append chain (y ∷ []),
    capacity_full s.max_size (length chain),
    capacity_room s.max_size (length (x ∷ chain)),
    last_items_all (capacity s.max_size) (chain ++ y ∷ []),
    last_items_all (capacity s.max_size) (x ∷ chain ++ y ∷ []),
  )

  pub push-window :
      (s : FixedLengthLinkedList A) (y : A)
      → IsValid s
      → ((push s y).first ≡ last_items (capacity s.max_size) (s.first ++ y ∷ []))
        × IsValid (push s y)
  unfolding push
  push-window s y (counted, bounded) = push_onto-window s.first s y counted bounded

  pub resize-window :
      (s : FixedLengthLinkedList A) (n : ℕ)
      → IsValid s
      → let kept = last_items n s.first in
        resize s (pos n) ≡ some (record { first = kept; length = length kept; max_size = n })
  unfolding resize
  resize-window s zero (counted, bounded) = rw (last_items_zero s.first) refl
  resize-window s (suc n) (counted, bounded) = rw (counted, shrink-last_items (suc n) s.first) refl
