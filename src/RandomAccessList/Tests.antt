-- ===== src/RandomAccessList/Tests.antt =====
-- random_access_list.hpp: the laws of the container at one of two values.
use garbage.Prelude.{ltb, returns, ℕ, ◌≡◌, refl, [], ◌∷◌, none, some, arith, ◌==◌, if◌then◌else◌}
use garbage.AvlTree.Nodes.{leaf, node}
use garbage.AvlTree.Edit.{new_node}
use garbage.RandomAccessList.Stump.{Stump}
use garbage.RandomAccessList.Stump.Laws.{Holds}
use garbage.RandomAccessList.Merge.Laws.{IsAsymmetric}
use garbage.RandomAccessList.Container.{insert, erase_range, subscript}
use garbage.RandomAccessList.Container.Insertion.{contents}
use garbage.RandomAccessList.Container.RangeInsertion.{insert_lem}
use garbage.RandomAccessList.Container.Erasure.{erase_range_lem}
use garbage.RandomAccessList.Container.Reading.{subscript-get_elem}

-- The values 50 and 60 in the nodes 5 and 6, between the gap nodes 0 and 1.
abbrev pub two_values : Stump ℕ
two_values = record {
  root = node 5 3 4 (new_node 0) (node 6 2 2 leaf (new_node 1));
  before_begin = 0;
  begin = some 5;
  end = 1;
  values = λ n. if n == 5 then some 50 else (if n == 6 then some 60 else none);
}

pub two_values-Holds : Holds two_values (5 ∷ 6 ∷ [])
two_values-Holds = record {
  tree = record {
    order = refl;
    distinct = (
      (omega arith, (omega arith, (omega arith, tt))),
      ((omega arith, (omega arith, tt)), ((omega arith, tt), (tt, tt))),
    );
    measured = (refl, refl, (refl, refl, tt, tt), (refl, refl, tt, (refl, refl, tt, tt)));
    small = omega arith;
  };
  begins = refl;
}

insert_lem_example :
    (st : Stump ℕ) × (insert two_values 6 ((7, some 70) ∷ (8, some 80) ∷ []) ≡ some (returns st 7))
    × Holds st (5 ∷ 7 ∷ 8 ∷ 6 ∷ [])
    × (contents st (5 ∷ 7 ∷ 8 ∷ 6 ∷ []) ≡ some 50 ∷ some 70 ∷ some 80 ∷ some 60 ∷ [])
insert_lem_example =
    insert_lem two_values (5 ∷ []) (6 ∷ []) ((7, 70) ∷ (8, 80) ∷ []) two_values-Holds
      ((omega arith, tt), (tt, tt))
      (
        (omega arith, omega arith, (omega arith, (omega arith, tt))),
        ((omega arith, omega arith, (omega arith, (omega arith, tt))), tt),
      )
      (omega arith)

erase_range_lem_example :
    (st : Stump ℕ) × (erase_range 2 two_values 5 6 ≡ some (st, 5 ∷ []))
    × Holds st (6 ∷ [])
    × (contents st (6 ∷ []) ≡ some 60 ∷ [])
erase_range_lem_example =
    erase_range_lem 2 two_values [] (5 ∷ []) (6 ∷ []) two_values-Holds (omega arith)

subscript-get_elem_example : some (subscript two_values 1) ≡ some (some 60)
subscript-get_elem_example =
    subscript-get_elem two_values (5 ∷ 6 ∷ []) 1 two_values-Holds (omega arith)

pub ltb-IsAsymmetric : IsAsymmetric ltb
ltb-IsAsymmetric x y e = ground arith
