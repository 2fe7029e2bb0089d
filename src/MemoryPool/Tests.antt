-- ===== src/MemoryPool/Tests.antt =====
-- MemoryPoolInternalClasses.h: the laws of the item maps for values of 5 bytes, which are aligned to
-- 4, in items of 24 bytes.
use garbage.Prelude.{
  ℕ, ◌+◌, ◌*◌, ◌/◌, ◌%◌, ◌≤◌, ◌<◌, ◌≡◌, ◌≢◌, refl, ◌⊎◌, true, some, arith, ◌==◌, if◌then◌else◌, ltb,
}
use garbage.MemoryPool.Bytes.{Memory}
use garbage.MemoryPool.Strategy.{Alignment, RoundsUp, CheckingConsts}
use garbage.MemoryPool.FreeItem.{
  FreeItemMap, make_free_item, set_next_free_item, get_next_free_item, check_free,
}
use garbage.MemoryPool.FreeItem.Laws.{IsBuilt, make_free_item-linked}
use garbage.MemoryPool.AllocatedItem.{
  AllocatedItemMap, new_allocated_map, end_construct_allocated, make_allocated_item,
  check_allocated,
}
use garbage.MemoryPool.AllocatedItem.Layout.{IsLaidOut, end_construct_allocated-IsLaidOut}
use garbage.MemoryPool.AllocatedItem.Laws.{make_allocated_item-check}
use garbage.MemoryPool.Reuse.{check_allocated-not-check_free}

-- Up to a multiple of 4.
abbrev up_to_4 : ℕ → ℕ
up_to_4 n = (n + 3) / 4 * 4

abbrev by_4 : Alignment
by_4 = record {
  align_size = up_to_4;
  align_address_for = λ a n. up_to_4 a;
  is_aligned_size = λ n. n % 4 == 0;
  is_aligned_address_for = λ a n. a % 4 == 0;
}

by_4-RoundsUp : RoundsUp by_4
by_4-RoundsUp = record { size = λ n. omega arith; address = λ a n. omega arith }

-- The values that MemoryPool.h tells of.
abbrev bytes : CheckingConsts
bytes = record {
  signature_and_pool_item_free = 254;
  signature_and_pool_item_allocated = 161;
  alignment_voids_fill = 175;
  item_value = 127;
}

abbrev free_map : FreeItemMap
free_map = record { aligned_item_size = 24; end_voids_size = 12; end_construct = true }

free_map-IsBuilt : IsBuilt by_4 bytes free_map
free_map-IsBuilt = record { constructed = refl; size = refl }

abbrev allocated_map : AllocatedItemMap
allocated_map = record {
  aligned_item_size = 24;
  begin_voids_size = 3;
  item_size_without_end_voids = 9;
  end_voids_size = 3;
  item_value_size = 5;
  end_voids_diff = 9;
  item_value_diff = 4;
  end_construct = true;
}

allocated_map-IsLaidOut : IsLaidOut allocated_map 5
allocated_map-IsLaidOut = record {
  constructed = refl;
  value = refl;
  not_empty = omega arith;
  after_signature = refl;
  after_value = refl;
  inside = omega arith;
  small = omega arith;
}

abbrev raw : Memory
raw k = 0

make_free_item-linked_example :
    (made : Memory) × (linked : Memory) × (make_free_item by_4 bytes free_map raw 48 ≡ some made)
    × (set_next_free_item by_4 bytes free_map made 48 72 ≡ some linked)
    × (get_next_free_item by_4 bytes free_map linked 48 ≡ some 72)
    × (check_free by_4 bytes free_map linked 48 ≡ some tt)
    × ((k : ℕ) → (k < 48) ⊎ (72 ≤ k) → linked k ≡ 0)
make_free_item-linked_example =
    make_free_item-linked by_4 bytes free_map raw 48 72 free_map-IsBuilt refl (omega arith)
      (omega arith)

end_construct_allocated-IsLaidOut_example :
    (fresh : AllocatedItemMap) × (map : AllocatedItemMap) × (new_allocated_map by_4 bytes 5
      ≡ some fresh)
    × (end_construct_allocated by_4 bytes fresh 24 ≡ some map)
    × (map.aligned_item_size ≡ 24)
    × (map.end_voids_diff + map.end_voids_size ≡ 12)
    × IsLaidOut map 5
end_construct_allocated-IsLaidOut_example =
    end_construct_allocated-IsLaidOut by_4 bytes 5 24 by_4-RoundsUp (record {
      not_empty = omega arith;
      small = omega arith;
      enough = omega arith;
      aligned = refl;
      fits = omega arith;
    })

make_allocated_item-check_example :
    (made : Memory) × (make_allocated_item by_4 bytes allocated_map raw 48 ≡ some made)
    × (check_allocated by_4 bytes allocated_map made 48 ≡ some tt)
    × ((k : ℕ) → 52 ≤ k → k < 57 → made k ≡ 127)
    × ((k : ℕ) → (k < 48) ⊎ (72 ≤ k) → made k ≡ 0)
make_allocated_item-check_example =
    make_allocated_item-check by_4 bytes allocated_map raw 48 5 allocated_map-IsLaidOut refl
      (omega arith)

-- The bytes of the free item at 0.
abbrev free_bytes : Memory
free_bytes k = if k == 0 then 254 else (if ltb k 4 then 175 else (if ltb k 12 then 0 else 175))

passes : check_free by_4 bytes free_map free_bytes 0 ≡ some tt
unfolding check_free
passes = refl

check_allocated-not-check_free_example :
    check_allocated by_4 bytes allocated_map free_bytes 0 ≢ some tt
check_allocated-not-check_free_example =
    check_allocated-not-check_free by_4 bytes free_map allocated_map free_bytes 0 5 free_map-IsBuilt
      allocated_map-IsLaidOut refl refl (omega arith) passes
