-- ===== src/RandomAccessList/Moving/Tests.antt =====
-- random_access_list.hpp: the laws of the operations that move nodes, at two values in each of two
-- containers.
use garbage.Prelude.{
  ltb, ℕ, ◌≡◌, refl, Bool, false, [], ◌∷◌, List, Option, none, some, arith, ◌==◌, if◌then◌else◌,
}
use mathlib.Core.List.{Perm}
use mathlib.Core.List.Perm
use garbage.AvlTree.Nodes.{leaf, node}
use garbage.AvlTree.Edit.{new_node}
use garbage.RandomAccessList.Stump.{Stump}
use garbage.RandomAccessList.Stump.Laws.{Holds}
use garbage.RandomAccessList.Container.Insertion.{contents}
use garbage.RandomAccessList.Merge.{merge_nodes}
use garbage.RandomAccessList.Merge.Laws.{
  IsAsymmetric, IsSorted, merge_nodes-IsSorted, merge_nodes-Perm,
}
use garbage.RandomAccessList.Moving.{sort, splice_all, merge}
use garbage.RandomAccessList.Moving.Laws.{MovesAll, move_all_nodes-MovesAll, IsSort, sort_lem}
use garbage.RandomAccessList.Moving.Splicing.{splice_all_lem}
use garbage.RandomAccessList.Moving.Merging.{by_values, IsSorted-map, merge_lem}
use garbage.RandomAccessList.Tests.{two_values, two_values-Holds, ltb-IsAsymmetric}

-- The values 45 and 55 in the nodes 7 and 8, between the gap nodes 2 and 3.
abbrev other_values : Stump ℕ
other_values = record {
  root = node 7 3 4 (new_node 2) (node 8 2 2 leaf (new_node 3));
  before_begin = 2;
  begin = some 7;
  end = 3;
  values = λ n. if n == 7 then some 45 else (if n == 8 then some 55 else none);
}

other_values-Holds : Holds other_values (7 ∷ 8 ∷ [])
other_values-Holds = record {
  tree = record {
    order = refl;
    distinct = (
      (omega arith, (omega arith, (omega arith, tt))),
      ((omega arith, (omega arith, tt)), ((omega arith, tt), (tt, tt))),
    );
    measured = (refl, refl, (refl, refl, tt, tt), (refl, refl, tt, (refl, refl, tt, tt)));
    small = omega arith;
  };
  begins = refl;
}

move_all_nodes-MovesAll_example : (st : Stump ℕ) × MovesAll two_values (5 ∷ 6 ∷ []) 8 st
move_all_nodes-MovesAll_example =
    move_all_nodes-MovesAll 8 two_values (5 ∷ 6 ∷ []) two_values-Holds (omega arith)

abbrev before : Option ℕ → Option ℕ → Bool
before none b = false
before (some a) none = false
before (some a) (some b) = ltb a b

before-IsAsymmetric : IsAsymmetric before
before-IsAsymmetric none b e = cc e
before-IsAsymmetric (some a) none e = refl
before-IsAsymmetric (some a) (some b) e = ltb-IsAsymmetric a b e

abbrev insertion_sort : (ℕ → Option ℕ) → List ℕ → List ℕ
insertion_sort values [] = []
insertion_sort values (n ∷ nodes) =
    merge_nodes (by_values before values) (n ∷ []) (insertion_sort values nodes)

insertion_sort-IsSorted :
    (values : ℕ → Option ℕ) (nodes : List ℕ)
    → IsSorted (by_values before values) (insertion_sort values nodes)
insertion_sort-IsSorted values [] = tt
insertion_sort-IsSorted values (n ∷ nodes) =
    merge_nodes-IsSorted (by_values before values) (n ∷ []) (insertion_sort values nodes)
      (λ x y. before-IsAsymmetric (values x) (values y)) (tt, tt)
      (insertion_sort-IsSorted values nodes)

insertion_sort-Perm :
    (values : ℕ → Option ℕ) (nodes : List ℕ) → Perm nodes (insertion_sort values nodes)
insertion_sort-Perm values [] = Perm.refl []
insertion_sort-Perm values (n ∷ nodes) = Perm.symm (
    Perm.trans (merge_nodes-Perm (by_values before values) (n ∷ []) (insertion_sort values nodes))
      (Perm.symm (Perm.cons n (insertion_sort-Perm values nodes))))

insertion_sort-IsSort : IsSort before insertion_sort
insertion_sort-IsSort = record {
  permutes = insertion_sort-Perm;
  sorts = λ values nodes.
      IsSorted-map before values (insertion_sort values nodes)
        (insertion_sort-IsSorted values nodes);
}

sort_lem_example :
    (st : Stump ℕ) × (sorted : List ℕ) × (sort insertion_sort 8 two_values ≡ some st)
    × Holds st sorted
    × Perm (5 ∷ 6 ∷ []) sorted
    × IsSorted before (contents st sorted)
    × Perm (contents two_values (5 ∷ 6 ∷ [])) (contents st sorted)
sort_lem_example =
    sort_lem before insertion_sort 8 two_values (5 ∷ 6 ∷ []) insertion_sort-IsSort two_values-Holds
      (omega arith)

splice_all_lem_example :
    (st : Stump ℕ) × (other : Stump ℕ) × (splice_all 8 two_values 6 other_values ≡ some (st, other))
    × Holds st (5 ∷ 7 ∷ 8 ∷ 6 ∷ [])
    × Holds other []
    × (contents st (5 ∷ 7 ∷ 8 ∷ 6 ∷ []) ≡ some 50 ∷ some 45 ∷ some 55 ∷ some 60 ∷ [])
splice_all_lem_example =
    splice_all_lem 8 two_values other_values (5 ∷ []) (6 ∷ []) (7 ∷ 8 ∷ []) two_values-Holds
      other_values-Holds
      (
        (omega arith, omega arith, (omega arith, (omega arith, tt))),
        ((omega arith, omega arith, (omega arith, (omega arith, tt))), tt),
      )
      (omega arith) (omega arith)

merge_lem_example :
    (st : Stump ℕ) × (other : Stump ℕ) × (merged : List ℕ) × (merge before 8 false two_values
        other_values
      ≡ some (st, other))
    × Holds st merged
    × Holds other []
    × IsSorted before (contents st merged)
    × Perm (contents st merged) (some 50 ∷ some 60 ∷ some 45 ∷ some 55 ∷ [])
merge_lem_example =
    merge_lem before 8 two_values other_values (5 ∷ 6 ∷ []) (7 ∷ 8 ∷ []) before-IsAsymmetric
      two_values-Holds other_values-Holds
      (
        (omega arith, (omega arith, (omega arith, (omega arith, (omega arith, tt))))),
        (
          (omega arith, (omega arith, (omega arith, (omega arith, tt)))),
          (
            (omega arith, (omega arith, (omega arith, tt))),
            ((omega arith, (omega arith, tt)), ((omega arith, tt), (tt, tt))),
          ),
        ),
      )
      (omega arith) (omega arith) (omega arith) (refl, (tt, tt)) (refl, (tt, tt))
