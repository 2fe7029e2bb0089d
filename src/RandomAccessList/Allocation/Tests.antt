-- ===== src/RandomAccessList/Allocation/Tests.antt =====
-- random_access_list.hpp: the laws of allocation in memory that is all free.
use garbage.Prelude.{◌≡◌, refl, true, false, [], ◌∷◌, none, some, arith}
use garbage.RandomAccessList.Allocation.{
  vacant, Memory, construct_nodes, new_cache_and_allocator, make_implementation,
}
use garbage.RandomAccessList.Allocation.Laws.{Ends, construct_nodes-Ends}
use garbage.RandomAccessList.Allocation.Gaps.{
  HasGaps, new_cache_and_allocator-HasGaps, make_implementation_undefined,
}

abbrev all_free : Memory
all_free = λ a. vacant

-- The second constructor throws.
construct_nodes-Ends_example :
    Ends all_free
      (10 ∷ 20 ∷ [])
      false
      (construct_nodes false all_free ((some 10, true) ∷ (some 20, false) ∷ []) [])
construct_nodes-Ends_example =
    construct_nodes-Ends all_free ((some 10, true) ∷ (some 20, false) ∷ [])
      ((omega arith, tt), (tt, tt)) (refl, (refl, tt))

new_cache_and_allocator-HasGaps_example :
    HasGaps all_free (some 1) none (new_cache_and_allocator false all_free (some 1) none)
new_cache_and_allocator-HasGaps_example =
    new_cache_and_allocator-HasGaps all_free (some 1) none (tt, tt) (refl, tt)

make_implementation_undefined_example :
    make_implementation false all_free (some 5) (some 1) none ≡ none
make_implementation_undefined_example =
    make_implementation_undefined all_free 5 (some 1) none ((omega arith, tt), (tt, tt))
      (refl, (refl, tt)) refl
