-- ===== src/FixedLengthLinkedList.antt =====
-- shared/fixed-length-linked-list.ts: a list that keeps its last items. The chain of links from
-- `first` is a list, and `last` is its end: `push` appends there, and where the chain is empty `last`
-- is set before it is read. A negative size makes the constructor and `resize` throw, which is `none`.
pub mod Window
pub mod Calls
use dyrectorio.Prelude.{
  ℕ, zero, suc, ◌-◌, Option, none, some, List, [], ◌∷◌, ◌++◌, ltb, leb, if◌then◌else◌, ℤ, pos,
  negsuc,
}

pub record FixedLengthLinkedList (A : Type 0) : Type 0 where
  pub first : List A
  pub length : ℕ
  pub max_size : ℕ

module _ {A : Type 0} where
  unfoldable pub new_list : ℤ → Option (FixedLengthLinkedList A)
  new_list (pos n) = some (record { first = []; length = 0; max_size = n })
  new_list (negsuc n) = none

  abbrev pub push_onto : List A → FixedLengthLinkedList A → A → FixedLengthLinkedList A
  push_onto [] s item = record s { first = item ∷ []; length = suc s.length }
  push_onto (x ∷ chain) s item =
      if leb s.max_size s.length
      then record s { first = chain ++ item ∷ [] }
      else record s { first = x ∷ chain ++ item ∷ []; length = suc s.length }

  unfoldable pub push : FixedLengthLinkedList A → A → FixedLengthLinkedList A
  push s item = push_onto s.first s item

  unfoldable pub clear : FixedLengthLinkedList A → FixedLengthLinkedList A
  clear s = record s { first = []; length = 0 }

  -- The loop of `resize`; `none` where it reads `next` of no link.
  unfoldable pub shrink : List A → ℕ → ℕ → Option (List A × ℕ)
  shrink [] count max_size = if ltb max_size count then none else some ([], count)
  shrink (x ∷ chain) count max_size =
      let rest = shrink chain (count - 1) max_size in
      if ltb max_size count then rest else some (x ∷ chain, count)

  abbrev pub resized : ℕ → Option (List A × ℕ) → Option (FixedLengthLinkedList A)
  resized size none = none
  resized size (some (chain, count)) =
      some (record { first = chain; length = count; max_size = size })

  unfoldable pub resize : FixedLengthLinkedList A → ℤ → Option (FixedLengthLinkedList A)
  unfolding shrink
  resize s (negsuc n) = none
  resize s (pos zero) = some (record { first = []; length = 0; max_size = 0 })
  resize s (pos (suc n)) = resized (suc n) (shrink s.first s.length (suc n))
