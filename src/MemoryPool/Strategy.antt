-- ===== src/MemoryPool/Strategy.antt =====
-- MemoryPoolInternalClasses.h: what the item maps take from their surroundings. The alignment
-- strategy (`TMemoryAlignmentStrategy`) and the values of `TPoolChekingConsts` are parameters,
-- since the repository holds their declarations only.
use garbage.Prelude.{ℕ, ◌+◌, ◌≤◌, Bool, true, false, Option, none, some, leb, ◌&&◌}

pub record Alignment : Type 0 where
  pub align_size : ℕ → ℕ
  pub align_address_for : ℕ → ℕ → ℕ
  pub is_aligned_size : ℕ → Bool
  pub is_aligned_address_for : ℕ → ℕ → Bool

-- MemoryAligment.h: aligning a size or an address never makes it smaller.
pub record RoundsUp (alignment : Alignment) : Type 0 where
  pub size : (n : ℕ) → n ≤ alignment.align_size n
  pub address : (a n : ℕ) → a ≤ alignment.align_address_for a n

-- `TPoolChekingConsts`
pub record CheckingConsts : Type 0 where
  pub signature_and_pool_item_free : ℕ
  pub signature_and_pool_item_allocated : ℕ
  pub alignment_voids_fill : ℕ
  pub item_value : ℕ

-- The effect of an `ASSERT` that fails is `none`.
abbrev pub assert : Bool → Option (Unit {0})
assert true = some tt
assert false = none

-- `TItemMap::ItemBelongBuffer`, with the map's `_alignedItemSize`.
unfoldable pub item_belong_buffer : Alignment → Bool → ℕ → ℕ → ℕ → ℕ → Option Bool
item_belong_buffer alignment end_construct aligned_item_size base first_item size_at_bytes =
    elim (end_construct
      && alignment.is_aligned_size size_at_bytes
      && alignment.is_aligned_address_for first_item aligned_item_size
      && alignment.is_aligned_address_for base aligned_item_size) [
        | true ↦
            some
              (leb first_item base && leb (base + aligned_item_size) (first_item + size_at_bytes))
        | false ↦ none
      ]
