-- ===== src/MemoryPool/FreeItem.antt =====
-- MemoryPoolInternalClasses.h: `TFreeItemMap<TPoolCheckMemoryCorruptionOfItemInternalStructures>`.
-- A free item is a signature byte, three void bytes, the pointer to the next free item, and void
-- bytes up to the size of the item.
pub mod Laws
use garbage.Prelude.{
  ◌>>=◌, ℕ, ◌+◌, ◌-◌, Bool, true, false, not, ◌&&◌, Option, none, some, update, leb, ltb, ◌==◌,
}
use garbage.MemoryPool.Bytes.{Memory, memset, count, size_of_pointer, load_pointer, store_pointer}
use garbage.MemoryPool.Strategy.{Alignment, CheckingConsts, assert}

pub record FreeItemMap : Type 0 where
  pub aligned_item_size : ℕ
  pub end_voids_size : ℕ
  pub end_construct : Bool

abbrev pub size_of_begin_voids : ℕ
size_of_begin_voids = 3

abbrev pub next_item_offset : ℕ
next_item_offset = 1 + size_of_begin_voids

-- `SIZE_OF_ITEM_WITHOUT_END_VOIDS`, which is also `END_VOIDS_OFFSET`.
abbrev pub size_of_item_without_end_voids : ℕ
size_of_item_without_end_voids = next_item_offset + size_of_pointer

unfoldable pub new_free_map : FreeItemMap
new_free_map = record {
  aligned_item_size = size_of_item_without_end_voids;
  end_voids_size = 0;
  end_construct = false;
}

module _ (alignment : Alignment) (consts : CheckingConsts) where
  -- `endConstruct`
  unfoldable pub end_construct_free : FreeItemMap → ℕ → Option FreeItemMap
  end_construct_free map real = do
    constructing ← assert (not map.end_construct)
    enough ← assert (leb map.aligned_item_size real)
    aligned ← assert (alignment.is_aligned_size real)
    whole ← assert (leb size_of_item_without_end_voids real)
    some record {
      aligned_item_size = real;
      end_voids_size = real - size_of_item_without_end_voids;
      end_construct = true;
    }

  -- The two `ASSERT`s that every operation starts with.
  abbrev pub ready : FreeItemMap → ℕ → Option (Unit {0})
  ready map base =
      assert (map.end_construct && alignment.is_aligned_address_for base map.aligned_item_size)

  -- The tests of `Check` on the bytes.
  unfoldable pub free_item_intact : FreeItemMap → Memory → ℕ → Bool
  unfolding count
  free_item_intact map mem base =
      not (mem base == consts.signature_and_pool_item_allocated)
      && mem base == consts.signature_and_pool_item_free
      && count mem (base + 1) consts.alignment_voids_fill size_of_begin_voids == size_of_begin_voids
      && count mem (base + size_of_item_without_end_voids) consts.alignment_voids_fill
          map.end_voids_size
        == map.end_voids_size

  unfoldable pub check_free : FreeItemMap → Memory → ℕ → Option (Unit {0})
  unfolding free_item_intact
  check_free map mem base = do start ← ready map base; assert (free_item_intact map mem base)

  unfoldable pub get_next_free_item : FreeItemMap → Memory → ℕ → Option ℕ
  get_next_free_item map mem base = do
    start ← ready map base
    some (load_pointer mem (base + next_item_offset))

  unfoldable pub set_next_free_item : FreeItemMap → Memory → ℕ → ℕ → Option Memory
  set_next_free_item map mem base next_base = do
    start ← ready map base
    some (store_pointer mem (base + next_item_offset) next_base)

  -- `MakeItem`. NULL is 0.
  unfoldable pub make_free_item : FreeItemMap → Memory → ℕ → Option Memory
  unfolding memset set_next_free_item
  make_free_item map mem base = do
    start ← ready map base
    let signed = update mem base consts.signature_and_pool_item_free
    let begun = memset signed (base + 1) consts.alignment_voids_fill size_of_begin_voids
    linked ← set_next_free_item map begun base 0
    room ← assert (ltb map.end_voids_size map.aligned_item_size)
    some (
        memset linked (base + size_of_item_without_end_voids) consts.alignment_voids_fill
          map.end_voids_size)
