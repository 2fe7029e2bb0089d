-- ===== src/ContainersUtility/Tests.antt =====
-- containers_utility.hpp: the laws at memory of three cells, the first of which is taken.
use garbage.Prelude.{throws, ℕ, ◌≡◌, [], ◌∷◌, Option, none, some, arith, ◌==◌, if◌then◌else◌}
use garbage.ContainersUtility.{uninitialized_copy_and_rollback_if_exception}
use garbage.ContainersUtility.Loop.{IsRaw}
use garbage.ContainersUtility.Copies.{uninitialized_copy_throws}

abbrev memory : ℕ → Option ℕ
memory p = if p == 0 then some 5 else none

memory-IsRaw : IsRaw memory 1 3
memory-IsRaw p lo hi = ground arith

uninitialized_copy_throws_example :
    (cells : ℕ → Option ℕ) × (uninitialized_copy_and_rollback_if_exception 3 memory
        (some 6 ∷ none ∷ [])
        1
        3
      ≡ some (throws cells))
    × ((p : ℕ) → cells p ≡ memory p)
uninitialized_copy_throws_example =
    uninitialized_copy_throws 3 memory (6 ∷ []) [] 1 3 (omega arith) (omega arith) memory-IsRaw
