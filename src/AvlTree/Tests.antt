-- ===== src/AvlTree/Tests.antt =====
-- random_access_list.hpp: the laws of `avl_tree_stump` at a tree of five nodes.
use garbage.Prelude.{ℕ, refl, [], ◌∷◌, arith, pos}
use garbage.AvlTree.Nodes.{leaf, node, left_of, right_of, Cursor, cursor_at}
use garbage.AvlTree.Balance.{check_and_restore_balance_of_level}
use garbage.AvlTree.Balance.Caches.{IsMeasured}
use garbage.AvlTree.Balance.Limits.{IsBalanced, check-not-IsBalanced_inner}
use garbage.AvlTree.Walk.Laws.{root}
use garbage.AvlTree.Edit.{new_node, attach_before, detach}
use garbage.AvlTree.Edit.Caches.{attach_before-IsMeasured, detach-IsMeasured}
use garbage.AvlTree.Index.{go_to}
use garbage.AvlTree.Index.Steps.{LandsAt, go_to-forward}

-- The nodes 0, 1, 2, 3 and 4, at the node 2.
abbrev at_two : Cursor ℕ
at_two = cursor_at 2 1 1 leaf leaf (right_of 1 2 3 (new_node 0) ∷ left_of 3 3 5 (new_node 4) ∷ [])

-- The same nodes, at the node 1, which has two children.
abbrev at_one : Cursor ℕ
at_one = cursor_at 1 2 3 (new_node 0) (new_node 2) (left_of 3 3 5 (new_node 4) ∷ [])

at_two-IsMeasured : IsMeasured (root at_two)
at_two-IsMeasured =
    (refl, refl, (refl, refl, (refl, refl, tt, tt), (refl, refl, tt, tt)), (refl, refl, tt, tt))

attach_before-IsMeasured_example : IsMeasured (attach_before at_one 9)
attach_before-IsMeasured_example = attach_before-IsMeasured at_one 9 at_two-IsMeasured (omega arith)

detach-IsMeasured_example : IsMeasured (detach at_one)
detach-IsMeasured_example = detach-IsMeasured at_one at_two-IsMeasured (omega arith)

go_to-forward_example : LandsAt at_two 4 (go_to at_two (pos 2))
go_to-forward_example = go_to-forward at_two 2 at_two-IsMeasured (omega arith) (omega arith)

check-not-IsBalanced_inner_example :
    ¬ IsBalanced {A = ℕ}
      (check_and_restore_balance_of_level (node 2 3 3 (node 0 2 2 leaf (new_node 1)) leaf))
check-not-IsBalanced_inner_example =
    check-not-IsBalanced_inner 2 0 3 3 2 2 leaf (new_node 1) leaf
      (refl, refl, (refl, refl, tt, (refl, refl, tt, tt)), tt) (omega arith) (omega arith)
      (omega arith)
