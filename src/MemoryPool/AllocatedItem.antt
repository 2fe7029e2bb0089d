-- ===== src/MemoryPool/AllocatedItem.antt =====
-- MemoryPoolInternalClasses.h: `TAllocatedItemMap` of the two checking strategies. An allocated item
-- is a signature byte, void bytes up to the alignment of the value, the value, and void bytes.
pub mod Laws
pub mod Layout
use garbage.Prelude.{
  ◌>>=◌, ℕ, ◌+◌, ◌-◌, ◌^◌, Bool, true, false, not, ◌&&◌, Option, none, some, update, leb, ltb, ◌==◌,
  if◌then◌else◌, add_size, sub_size,
}
use garbage.MemoryPool.Bytes.{Memory, memset, count}
use garbage.MemoryPool.Strategy.{Alignment, CheckingConsts, assert, item_belong_buffer}

pub record AllocatedItemMap : Type 0 where
  pub aligned_item_size : ℕ
  pub begin_voids_size : ℕ
  pub item_size_without_end_voids : ℕ
  pub end_voids_size : ℕ
  pub item_value_size : ℕ
  pub end_voids_diff : ℕ
  pub item_value_diff : ℕ
  pub end_construct : Bool

-- The sign of a `ptrdiff_t`, by its bits.
abbrev pub not_negative : ℕ → Bool
not_negative n = ltb n (2 ^ 63)

module _ (alignment : Alignment) (consts : CheckingConsts) where
  -- The constructor.
  unfoldable pub new_allocated_map : ℕ → Option AllocatedItemMap
  new_allocated_map max_item_size = do
    positive ← assert (ltb 0 max_item_size)
    let diff = alignment.align_address_for 1 max_item_size
    after_signature ← assert (not_negative diff && leb 1 diff)
    let without_end_voids = add_size diff max_item_size
    let aligned = alignment.align_size without_end_voids
    some record {
      aligned_item_size = aligned;
      begin_voids_size = sub_size diff 1;
      item_size_without_end_voids = without_end_voids;
      end_voids_size = sub_size aligned without_end_voids;
      item_value_size = max_item_size;
      end_voids_diff = without_end_voids;
      item_value_diff = diff;
      end_construct = false;
    }

  -- `endConstruct`. The source stores the new size before it compares the old size with it.
  unfoldable pub end_construct_allocated : AllocatedItemMap → ℕ → Option AllocatedItemMap
  end_construct_allocated map real = do
    constructing ← assert (not map.end_construct)
    enough ← assert (leb map.aligned_item_size real)
    aligned ← assert (alignment.is_aligned_size real)
    let stored = record map { aligned_item_size = real }
    still ← assert (leb stored.aligned_item_size real)
    let filled =
        if ltb stored.aligned_item_size real
        then record stored {
          aligned_item_size = real;
          end_voids_size = sub_size real stored.item_size_without_end_voids;
        }
        else stored
    some record filled { end_construct = true }

  abbrev pub ready : AllocatedItemMap → ℕ → Option (Unit {0})
  ready map base =
      assert (map.end_construct && alignment.is_aligned_address_for base map.aligned_item_size)

  -- The tests of `Check` on the bytes.
  unfoldable pub allocated_item_intact : AllocatedItemMap → Memory → ℕ → Bool
  unfolding count
  allocated_item_intact map mem base =
      not (mem base == consts.signature_and_pool_item_free)
      && mem base == consts.signature_and_pool_item_allocated
      && count mem (base + 1) consts.alignment_voids_fill map.begin_voids_size
        == map.begin_voids_size
      && count mem (base + map.end_voids_diff) consts.alignment_voids_fill map.end_voids_size
        == map.end_voids_size

  unfoldable pub check_allocated : AllocatedItemMap → Memory → ℕ → Option (Unit {0})
  unfolding allocated_item_intact
  check_allocated map mem base = do
    start ← ready map base
    assert (allocated_item_intact map mem base)

  -- `AllocatedItemBelongPoolCheck` of `TPoolCheckMemoryCorruptionOfItemInternalStructures`, and the
  -- one of `TPoolDisallowItemFromAnotherPoolAndCheckMemoryCorruptionOfItemInternalStructures`.
  unfoldable pub belong_pool_check : AllocatedItemMap → ℕ → ℕ → ℕ → Option (Unit {0})
  belong_pool_check map base first_item size_at_bytes = ready map base

  unfoldable pub belong_pool_check_strict : AllocatedItemMap → ℕ → ℕ → ℕ → Option (Unit {0})
  unfolding item_belong_buffer
  belong_pool_check_strict map base first_item size_at_bytes = do
    start ← ready map base
    belongs ←
        item_belong_buffer alignment map.end_construct map.aligned_item_size base first_item
          size_at_bytes
    assert belongs

  unfoldable pub get_item_base : AllocatedItemMap → ℕ → Option ℕ
  get_item_base map pointer = do
    constructed ← assert map.end_construct
    some (pointer - map.item_value_diff)

  unfoldable pub get_allocated_pointer : AllocatedItemMap → ℕ → Option ℕ
  get_allocated_pointer map base = do
    constructed ← assert map.end_construct
    some (base + map.item_value_diff)

  -- `MakeItem`
  unfoldable pub make_allocated_item : AllocatedItemMap → Memory → ℕ → Option Memory
  unfolding memset
  make_allocated_item map mem base = do
    start ← ready map base
    let signed = update mem base consts.signature_and_pool_item_allocated
    end_voids ← assert (ltb map.end_voids_size map.aligned_item_size)
    begin_voids ← assert (ltb map.begin_voids_size map.aligned_item_size)
    after_value ←
        assert (not_negative map.end_voids_diff && leb map.end_voids_diff map.aligned_item_size)
    value ← assert (ltb map.item_value_size map.aligned_item_size)
    before_value ←
        assert (not_negative map.item_value_diff && ltb map.item_value_diff map.aligned_item_size)
    let begun = memset signed (base + 1) consts.alignment_voids_fill map.begin_voids_size
    let valued = memset begun (base + map.item_value_diff) consts.item_value map.item_value_size
    some (memset valued (base + map.end_voids_diff) consts.alignment_voids_fill map.end_voids_size)
