-- ===== src/AvlTree/Walk.antt =====
-- random_access_list.hpp: the walks of `avl_tree_stump` along child and parent pointers.
pub mod Laws
use garbage.Prelude.{List, [], ◌∷◌, Option, none, some}
use garbage.AvlTree.Nodes.{Tree, leaf, node, left_of, right_of, Parents, Cursor, cursor_at, subtree}

module _ {ℓ} {A : Type ℓ} where
  -- `none` is NULL.
  unfoldable pub find_rightmost : Tree A → Parents A → Option (Cursor A)
  find_rightmost leaf fs = none
  find_rightmost (node x h s l leaf) fs = some (cursor_at x h s l leaf fs)
  find_rightmost (node x h s l (node rx rh rs rl rr)) fs =
      find_rightmost (node rx rh rs rl rr) (right_of x h s l ∷ fs)

  unfoldable pub find_leftmost : Tree A → Parents A → Option (Cursor A)
  find_leftmost leaf fs = none
  find_leftmost (node x h s leaf r) fs = some (cursor_at x h s leaf r fs)
  find_leftmost (node x h s (node lx lh ls ll lr) r) fs =
      find_leftmost (node lx lh ls ll lr) (left_of x h s r ∷ fs)

  -- Up while the node is a right child, and then once more. `none` is the NULL above the root.
  unfoldable pub climb_while_right : Tree A → Parents A → Option (Cursor A)
  climb_while_right t [] = none
  climb_while_right t (left_of x h s r ∷ fs) = some (cursor_at x h s t r fs)
  climb_while_right t (right_of x h s l ∷ fs) = climb_while_right (node x h s l t) fs

  unfoldable pub climb_while_left : Tree A → Parents A → Option (Cursor A)
  climb_while_left t [] = none
  climb_while_left t (left_of x h s r ∷ fs) = climb_while_left (node x h s t r) fs
  climb_while_left t (right_of x h s l ∷ fs) = some (cursor_at x h s l t fs)

  unfoldable pub forward : Cursor A → Option (Cursor A)
  unfolding find_leftmost climb_while_right
  forward c = elim c.right [
    | leaf ↦ climb_while_right (subtree c) c.parents
    | node x h s l r ↦ find_leftmost c.right (right_of c.item c.height c.size c.left ∷ c.parents)
  ]

  unfoldable pub backward : Cursor A → Option (Cursor A)
  unfolding find_rightmost climb_while_left
  backward c = elim c.left [
    | leaf ↦ climb_while_left (subtree c) c.parents
    | node x h s l r ↦ find_rightmost c.left (left_of c.item c.height c.size c.right ∷ c.parents)
  ]
