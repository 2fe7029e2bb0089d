-- ===== src/MemoryPool/Unchecked.antt =====
-- MemoryPoolInternalClasses.h: the two item maps of `TPoolNoCheck`, which hold nothing but the value
-- or the pointer to the next free item.
use garbage.Prelude.{
  ◌>>=◌, ℕ, ◌<◌, ◌≡◌, ap, Bool, true, false, not, ◌&&◌, Option, some, leb, ltb, size_mod,
}
use garbage.MemoryPool.Bytes.{Memory, load_pointer, store_pointer}
use garbage.MemoryPool.Bytes.Laws.{load-store}
use garbage.MemoryPool.Strategy.{Alignment, assert}

pub record ItemMap : Type 0 where
  pub aligned_item_size : ℕ
  pub end_construct : Bool

abbrev pub new_unchecked_free_map : ItemMap
new_unchecked_free_map = record { aligned_item_size = 8; end_construct = false }

module _ (alignment : Alignment) where
  unfoldable pub new_unchecked_allocated_map : ℕ → Option ItemMap
  new_unchecked_allocated_map max_item_size = do
    positive ← assert (ltb 0 max_item_size)
    some record { aligned_item_size = alignment.align_size max_item_size; end_construct = false }

  -- `endConstruct` of both maps.
  unfoldable pub end_construct_unchecked : ItemMap → ℕ → Option ItemMap
  end_construct_unchecked map real = do
    constructing ← assert (not map.end_construct)
    enough ← assert (leb map.aligned_item_size real)
    aligned ← assert (alignment.is_aligned_size real)
    some record { aligned_item_size = real; end_construct = true }

  -- `Check` and `MakeItem` of the allocated item, which do nothing else.
  unfoldable pub check_unchecked : ItemMap → ℕ → Option (Unit {0})
  check_unchecked map base =
      assert (map.end_construct && alignment.is_aligned_address_for base map.aligned_item_size)

  unfoldable pub get_next_unchecked : ItemMap → Memory → ℕ → Option ℕ
  unfolding check_unchecked
  get_next_unchecked map mem base = do
    start ← check_unchecked map base
    some (load_pointer mem base)

  unfoldable pub set_next_unchecked : ItemMap → Memory → ℕ → ℕ → Option Memory
  unfolding check_unchecked
  set_next_unchecked map mem base next_base = do
    start ← check_unchecked map base
    some (store_pointer mem base next_base)

  -- `MakeItem` of the free item. NULL is 0.
  unfoldable pub make_unchecked_free_item : ItemMap → Memory → ℕ → Option Memory
  unfolding set_next_unchecked
  make_unchecked_free_item map mem base = do
    start ← check_unchecked map base
    set_next_unchecked map mem base 0

  -- `GetItemBase` and `GetAllocatedPointer`
  unfoldable pub item_base_unchecked : ItemMap → ℕ → Option ℕ
  unfolding check_unchecked
  item_base_unchecked map pointer = do start ← check_unchecked map pointer; some pointer

  -- The next free item that is set is the one that is read.
  pub get_next-set_next :
      (map : ItemMap) (mem : Memory) (base next : ℕ)
      → map.end_construct ≡ true
      → alignment.is_aligned_address_for base map.aligned_item_size ≡ true
      → next < size_mod
      → (set_next_unchecked map mem base next >>= λ linked. get_next_unchecked map linked base)
        ≡ some next
  unfolding set_next_unchecked get_next_unchecked check_unchecked
  get_next-set_next map mem base next c a small =
      rw (c, a) (ap some (load-store 8 mem base next small))
