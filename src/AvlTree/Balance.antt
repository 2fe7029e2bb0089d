-- ===== src/AvlTree/Balance.antt =====
-- random_access_list.hpp: the cached heights and sizes of `avl_tree_stump`, its rotations, and
-- the walk to the root that restores both after a change.
pub mod Caches
pub mod Order
pub mod Limits
use garbage.Prelude.{ℕ, ◌+◌, max, Bool, true, false, [], ◌∷◌, if◌then◌else◌, ltb, add_size}
use garbage.AvlTree.Nodes.{Tree, leaf, node, Parents, fill, plug}

module _ {ℓ} {A : Type ℓ} where
  unfoldable pub size : Tree A → ℕ
  size leaf = 0
  size (node x h s l r) = s

  unfoldable pub height : Tree A → ℕ
  height leaf = 0
  height (node x h s l r) = h

  -- Reads the caches of the two children only.
  unfoldable pub recalculate_height_and_size_with_data_from_two_childs : Tree A → Tree A
  unfolding size height
  recalculate_height_and_size_with_data_from_two_childs leaf = leaf
  recalculate_height_and_size_with_data_from_two_childs (node x h s l r) =
      node x (add_size (max (height l) (height r)) 1) (add_size (add_size (size l) (size r)) 1) l r

  -- The flag is `needHeightAndSizeRestore`.
  unfoldable pub right_rotate : Tree A → Bool → Tree A
  unfolding recalculate_height_and_size_with_data_from_two_childs
  right_rotate leaf b = leaf
  right_rotate (node x h s leaf r) b = node x h s leaf r
  right_rotate (node x h s (node px ph ps pl inner) r) true =
      recalculate_height_and_size_with_data_from_two_childs (
        node px ph ps pl
          (recalculate_height_and_size_with_data_from_two_childs (node x h s inner r)))
  right_rotate (node x h s (node px ph ps pl inner) r) false = node px ph ps pl (node x h s inner r)

  unfoldable pub left_rotate : Tree A → Bool → Tree A
  unfolding recalculate_height_and_size_with_data_from_two_childs
  left_rotate leaf b = leaf
  left_rotate (node x h s l leaf) b = node x h s l leaf
  left_rotate (node x h s l (node px ph ps inner pr)) true =
      recalculate_height_and_size_with_data_from_two_childs (
        node px ph ps (recalculate_height_and_size_with_data_from_two_childs (node x h s l inner))
          pr)
  left_rotate (node x h s l (node px ph ps inner pr)) false = node px ph ps (node x h s l inner) pr

  unfoldable pub check_and_restore_balance_of_level : Tree A → Tree A
  unfolding height right_rotate left_rotate
  check_and_restore_balance_of_level leaf = leaf
  check_and_restore_balance_of_level (node x h s l r) =
      if ltb (add_size (height r) 1) (height l)
      then right_rotate (node x h s l r) true
      else (if ltb (add_size (height l) 1) (height r)
          then left_rotate (node x h s l r) true
          else node x h s l r)

  -- One round of the loop.
  abbrev pub restore_level : Tree A → Tree A
  restore_level t =
      check_and_restore_balance_of_level (recalculate_height_and_size_with_data_from_two_childs t)

  -- The loop goes up by `_parent`, and the last level becomes `_root`.
  unfoldable pub restore_levels : Tree A → Parents A → Tree A
  restore_levels t [] = restore_level t
  restore_levels t (f ∷ fs) = restore_levels (fill f (restore_level t)) fs

  -- Takes `lowest_incorrect` with its parents, and gives the new `_root`.
  unfoldable pub restore_height_size_and_balance_of_tree : Tree A → Parents A → Tree A
  unfolding restore_levels
  restore_height_size_and_balance_of_tree leaf fs = plug leaf fs
  restore_height_size_and_balance_of_tree (node x h s l r) fs = restore_levels (node x h s l r) fs
