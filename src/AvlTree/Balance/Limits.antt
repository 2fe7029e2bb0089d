-- ===== src/AvlTree/Balance/Limits.antt =====
-- random_access_list.hpp: when the one rotation of `check_and_restore_balance_of_level` balances a
-- level, and when it does not. An AVL tree needs a double rotation in the second case.
use garbage.Prelude.{ℕ, ◌+◌, ◌≤◌, ◌<◌, ◌≡◌, arith, size_mod}
use garbage.AvlTree.Nodes.{Tree, leaf, node}
use garbage.AvlTree.Balance.{
  recalculate_height_and_size_with_data_from_two_childs, check_and_restore_balance_of_level,
}
use garbage.AvlTree.Balance.Caches.{real_height, real_size, IsMeasured, real_height-le, height-eq}

module _ {ℓ} {A : Type ℓ} where
  -- The heights of siblings differ by 1 at most.
  abbrev pub IsBalanced : Tree A → Type 0
  IsBalanced leaf = Unit
  IsBalanced (node x h s l r) =
      (real_height l ≤ real_height r + 1)
      × (real_height r ≤ real_height l + 1)
      × IsBalanced l
      × IsBalanced r

  -- A left child that is too high by one and does not lean right: one rotation balances the level.
  pub check-IsBalanced_outer :
      (x px : A) (h s ph ps : ℕ) (pl inner r : Tree A)
      → IsMeasured (node x h s (node px ph ps pl inner) r)
      → real_size (node x h s (node px ph ps pl inner) r) < size_mod
      → IsBalanced (node px ph ps pl inner)
      → IsBalanced r
      → real_height (node px ph ps pl inner) ≡ real_height r + 2
      → real_height inner ≤ real_height pl
      → IsBalanced (check_and_restore_balance_of_level (node x h s (node px ph ps pl inner) r))
  unfolding check_and_restore_balance_of_level recalculate_height_and_size_with_data_from_two_childs
  check-IsBalanced_outer x px h s ph ps pl inner r m b bl br e o =
      let hr = height-eq r m.3 in let d = real_height-le r in ground arith

  -- In a measured tree with fewer than 2^64 nodes, a level whose left child is higher than its
  -- right by two and leans right stays unbalanced after check_and_restore_balance_of_level.
  pub check-not-IsBalanced_inner :
      (x px : A) (h s ph ps : ℕ) (pl inner r : Tree A)
      → IsMeasured (node x h s (node px ph ps pl inner) r)
      → real_size (node x h s (node px ph ps pl inner) r) < size_mod
      → real_height (node px ph ps pl inner) ≡ real_height r + 2
      → real_height pl < real_height inner
      → ¬ IsBalanced (check_and_restore_balance_of_level (node x h s (node px ph ps pl inner) r))
  unfolding check_and_restore_balance_of_level recalculate_height_and_size_with_data_from_two_childs
  check-not-IsBalanced_inner x px h s ph ps pl inner r m b e o bal =
      let hr = height-eq r m.3 in let d = real_height-le r in ground arith
