-- ===== src/AvlTree/Balance/Order.antt =====
-- Rotations and the walk to the root keep the order of the nodes.
use garbage.Prelude.{◌≡◌, refl, ◌∙◌, sym, ap, true, false, Bool, [], ◌∷◌, ◌++◌, append_assoc, arith}
use garbage.AvlTree.Nodes.{
  Tree, leaf, node, Parents, fill, plug, to_list, before_parents, after_parents, to_list-fill,
  to_list-plug,
}
use garbage.AvlTree.Balance.{
  recalculate_height_and_size_with_data_from_two_childs, right_rotate, left_rotate,
  check_and_restore_balance_of_level, restore_level, restore_levels,
  restore_height_size_and_balance_of_tree,
}

module _ {ℓ} {A : Type ℓ} where
  pub to_list-recalculate :
      (t : Tree A) → to_list (recalculate_height_and_size_with_data_from_two_childs t) ≡ to_list t
  unfolding recalculate_height_and_size_with_data_from_two_childs
  to_list-recalculate leaf = refl
  to_list-recalculate (node x h s l r) = refl

  pub to_list-right_rotate : (t : Tree A) (b : Bool) → to_list (right_rotate t b) ≡ to_list t
  unfolding right_rotate
  to_list-right_rotate leaf b = refl
  to_list-right_rotate (node x h s leaf r) b = refl
  to_list-right_rotate (node x h s (node px ph ps pl inner) r) true = simp append_assoc
  to_list-right_rotate (node x h s (node px ph ps pl inner) r) false = simp append_assoc

  pub to_list-left_rotate : (t : Tree A) (b : Bool) → to_list (left_rotate t b) ≡ to_list t
  unfolding left_rotate
  to_list-left_rotate leaf b = refl
  to_list-left_rotate (node x h s l leaf) b = refl
  to_list-left_rotate (node x h s l (node px ph ps inner pr)) true = simp append_assoc
  to_list-left_rotate (node x h s l (node px ph ps inner pr)) false = simp append_assoc

  to_list-check : (t : Tree A) → to_list (check_and_restore_balance_of_level t) ≡ to_list t
  unfolding check_and_restore_balance_of_level
  to_list-check leaf = refl
  to_list-check (node x h s l r) =
      ground (
        arith,
        to_list-right_rotate (node x h s l r) true,
        to_list-left_rotate (node x h s l r) true,
      )

  pub to_list-restore_level : (t : Tree A) → to_list (restore_level t) ≡ to_list t
  to_list-restore_level t = to_list-check _ ∙ to_list-recalculate t

  to_list-restore_levels :
      (t : Tree A) (fs : Parents A)
      → to_list (restore_levels t fs) ≡ before_parents fs ++ (to_list t ++ after_parents fs)
  unfolding restore_levels
  to_list-restore_levels t [] = to_list-restore_level t ∙ to_list-plug t []
  to_list-restore_levels t (f ∷ fs) =
      to_list-restore_levels (fill f (restore_level t)) fs
      ∙ (to_list-fill f (restore_level t) fs
          ∙ ap (λ u. before_parents (f ∷ fs) ++ (u ++ after_parents (f ∷ fs)))
              (to_list-restore_level t))

  -- Restoring heights, sizes and balance from a node up to the root keeps the in-order
  -- sequence of the nodes, whatever the caches held.
  pub to_list-restore :
      (t : Tree A) (fs : Parents A)
      → to_list (restore_height_size_and_balance_of_tree t fs) ≡ to_list (plug t fs)
  unfolding restore_height_size_and_balance_of_tree
  to_list-restore leaf fs = refl
  to_list-restore (node x h s l r) fs =
      to_list-restore_levels (node x h s l r) fs ∙ sym (to_list-plug (node x h s l r) fs)
