-- ===== src/RandomAccessList/Assigning/Tests.antt =====
-- random_access_list.hpp: `assign` and `resize` of a container of two values.
use garbage.Prelude.{returns, ℕ, ◌≡◌, [], ◌∷◌, some, arith}
use garbage.RandomAccessList.Stump.{Stump}
use garbage.RandomAccessList.Stump.Laws.{Holds}
use garbage.RandomAccessList.Container.Insertion.{contents}
use garbage.RandomAccessList.Assigning.{assign}
use garbage.RandomAccessList.Assigning.Filling.{assign_lem}
use garbage.RandomAccessList.Tests.{two_values}

assign_lem_example :
    (st : Stump ℕ) × (assign two_values 2 3 ((7, some 70) ∷ (8, some 80) ∷ [])
      ≡ some (returns st tt))
    × Holds st (7 ∷ 8 ∷ [])
    × (contents st (7 ∷ 8 ∷ []) ≡ some 70 ∷ some 80 ∷ [])
assign_lem_example =
    assign_lem two_values 2 3 ((7, 70) ∷ (8, 80) ∷ [])
      (
        (omega arith, (omega arith, (omega arith, tt))),
        ((omega arith, (omega arith, tt)), ((omega arith, tt), (tt, tt))),
      )
      (omega arith)
