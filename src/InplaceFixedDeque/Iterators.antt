-- ===== src/InplaceFixedDeque/Iterators.antt =====
-- inplace_fixed_deque.hpp: `iterator_implementation_template`. An iterator is the address of its deque
-- and an index in it. The deques of the program are a function of their address.
pub mod Laws
use garbage.Prelude.{
  ℕ, zero, suc, ◌+◌, ◌-◌, Bool, true, false, Option, none, some, if◌then◌else◌, ltb, leb, ◌==◌, ℤ,
  pos, negsuc, ptr_eq,
}
use garbage.InplaceFixedDeque.{Deque, size_internal, subscript}

pub record Iterator : Type 0 where
  pub source : Option ℕ
  pub index : ℕ

-- The index that `advance` computes in a deque of `size` values.
unfoldable pub advanced : ℕ → ℕ → ℤ → ℕ
advanced size index (pos n) = if ltb size (index + n) then size else index + n
advanced size index (negsuc n) = if ltb index (n + 1) then 0 else index - (n + 1)

-- The negated distance of two indices.
abbrev pub minus : ℕ → ℤ
minus zero = pos 0
minus (suc n) = negsuc n

module _ {ℓ} {T : Type ℓ} (capacity : ℕ) (deques : ℕ → Deque T) where
  abbrev pub size_at : ℕ → ℕ
  size_at a = size_internal capacity (deques a)

  abbrev pub begin_at : ℕ → Iterator
  begin_at a = record { source = some a; index = 0 }

  abbrev pub end_at : ℕ → Iterator
  end_at a = record { source = some a; index = size_at a }

  -- NULL has no value.
  unfoldable pub dereference : Iterator → Option T
  unfolding subscript
  dereference it = elim it.source [ none ↦ none | some a ↦ subscript capacity (deques a) it.index ]

  unfoldable pub increment : Iterator → Iterator
  unfolding size_internal
  increment it = elim it.source [
    | none ↦ it
    | some a ↦ if leb (size_at a) it.index then it else record it { index = it.index + 1 }
  ]

  -- The branch that goes to the end from the index 0 is behind a return.
  unfoldable pub decrement : Iterator → Iterator
  decrement it = elim it.source [
    | none ↦ it
    | some a ↦ if leb it.index 0 then it else record it { index = it.index - 1 }
  ]

  unfoldable pub advance : Iterator → ℤ → Iterator
  unfolding advanced size_internal
  advance it n = elim it.source [
    | none ↦ it
    | some a ↦ record it { index = advanced (size_at a) it.index n }
  ]

  -- Iterators of different deques, and those of none, compare equal.
  unfoldable pub equal : Iterator → Iterator → Bool
  equal it other = elim (ptr_eq other.source it.source) [
    | false ↦ true
    | true ↦ elim it.source [ none ↦ true | some a ↦ it.index == other.index ]
  ]

  unfoldable pub distance_to : Iterator → Iterator → ℤ
  distance_to it other = elim it.source [
    | none ↦ pos 0
    | some a ↦ elim (ptr_eq other.source (some a)) [
      | false ↦ pos 0
      | true ↦
          if leb it.index other.index
          then pos (other.index - it.index)
          else minus (it.index - other.index)
    ]
  ]
