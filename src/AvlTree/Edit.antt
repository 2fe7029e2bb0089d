-- ===== src/AvlTree/Edit.antt =====
-- random_access_list.hpp: what `insert_before` and `delete_` do to the tree.
pub mod Order
pub mod Caches
use garbage.Prelude.{[], ◌∷◌, ◌++◌, none, some}
use garbage.AvlTree.Nodes.{Tree, leaf, node, left_of, Parents, Cursor, fill, plug}
use garbage.AvlTree.Balance.{restore_height_size_and_balance_of_tree}
use garbage.AvlTree.Walk.{find_rightmost}

module _ {ℓ} {A : Type ℓ} where
  -- A node with no neighbours.
  abbrev pub new_node : A → Tree A
  new_node x = node x 1 1 leaf leaf

  -- `insert_before` at a node `it` of a tree that is not empty: the new `_root`. The `none` case
  -- is dead, since a left subtree has a rightmost node.
  unfoldable pub attach_before : Cursor A → A → Tree A
  unfolding find_rightmost restore_height_size_and_balance_of_tree
  attach_before it x = elim it.left [
    | leaf ↦
        restore_height_size_and_balance_of_tree
          (node it.item it.height it.size (new_node x) it.right) it.parents
    | node lx lh ls ll lr ↦
        elim (find_rightmost it.left (left_of it.item it.height it.size it.right ∷ it.parents)) [
          | none ↦ leaf
          | some last ↦
              restore_height_size_and_balance_of_tree
                (node last.item last.height last.size last.left (new_node x)) last.parents
        ]
  ]

  -- The walk up starts at the parent of what was replaced. At the root there is none.
  unfoldable pub restore_from_parent : Tree A → Parents A → Tree A
  unfolding restore_height_size_and_balance_of_tree
  restore_from_parent t [] = t
  restore_from_parent t (f ∷ fs) = restore_height_size_and_balance_of_tree (fill f t) fs

  -- `delete_`: the new `_root`. A node with no left child gives its place to its right child.
  -- Any other gives it to the rightmost node of its left subtree, whose left child moves up.
  unfoldable pub detach : Cursor A → Tree A
  unfolding find_rightmost restore_from_parent
  detach c = elim c.left [
    | leaf ↦ restore_from_parent c.right c.parents
    | node lx lh ls ll lr ↦ elim (find_rightmost c.left []) [
      | none ↦ leaf
      | some last ↦
          restore_from_parent last.left
            (last.parents ++ left_of last.item last.height last.size c.right ∷ c.parents)
    ]
  ]
