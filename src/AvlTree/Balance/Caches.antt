-- ===== src/AvlTree/Balance/Caches.antt =====
-- random_access_list.hpp: `_height` and `_size` of each node against the real height and node
-- count of its subtree, which `selfCheckIfConstructed` recomputes.
use garbage.Prelude.{
  ℕ, suc, ◌+◌, max, ◌≤◌, ◌<◌, ◌≡◌, ◌≢◌, ◌++◌, refl, ap, ◌∙◌, sym, true, [], ◌∷◌, arith, length,
  length-append, size_mod,
}
use garbage.AvlTree.Nodes.{
  Tree, leaf, node, Frame, left_of, right_of, Parents, fill, plug, to_list, before_parents,
  after_parents, to_list-plug,
}
use garbage.AvlTree.Balance.{
  size, height, recalculate_height_and_size_with_data_from_two_childs, right_rotate, left_rotate,
  check_and_restore_balance_of_level, restore_level, restore_levels,
  restore_height_size_and_balance_of_tree,
}
use garbage.AvlTree.Balance.Order.{to_list-restore_level}

module _ {ℓ} {A : Type ℓ} where
  -- `getAndCheckHeight`
  abbrev pub real_height : Tree A → ℕ
  real_height leaf = 0
  real_height (node x h s l r) = suc (max (real_height l) (real_height r))

  -- `getAndCheckSize`
  abbrev pub real_size : Tree A → ℕ
  real_size leaf = 0
  real_size (node x h s l r) = suc (real_size l + real_size r)

  -- Every node caches its real height and size.
  abbrev pub IsMeasured : Tree A → Type 0
  IsMeasured leaf = Unit
  IsMeasured (node x h s l r) =
      (h ≡ real_height (node x h s l r))
      × (s ≡ real_size (node x h s l r))
      × IsMeasured l
      × IsMeasured r

  -- The subtrees beside a path are measured. The parents' own caches may be stale.
  abbrev pub SidesMeasured : Parents A → Type 0
  SidesMeasured [] = Unit
  SidesMeasured (left_of x h s r ∷ fs) = IsMeasured r × SidesMeasured fs
  SidesMeasured (right_of x h s l ∷ fs) = IsMeasured l × SidesMeasured fs

  abbrev pub ChildrenMeasured : Tree A → Type 0
  ChildrenMeasured leaf = Unit
  ChildrenMeasured (node x h s l r) = IsMeasured l × IsMeasured r

  pub real_height-le : (t : Tree A) → real_height t ≤ real_size t
  real_height-le leaf = omega arith
  real_height-le (node x h s l r) = omega (arith, real_height-le l, real_height-le r)

  pub real_size-length : (t : Tree A) → real_size t ≡ length (to_list t)
  real_size-length leaf = refl
  real_size-length (node x h s l r) =
      omega
        (arith, real_size-length l, real_size-length r, length-append (to_list l) (x ∷ to_list r))

  pub size-eq : (t : Tree A) → IsMeasured t → size t ≡ real_size t
  unfolding size
  size-eq leaf m = refl
  size-eq (node x h s l r) m = m.1

  pub height-eq : (t : Tree A) → IsMeasured t → height t ≡ real_height t
  unfolding height
  height-eq leaf m = refl
  height-eq (node x h s l r) m = m.0

  pub IsMeasured-children : (t : Tree A) → IsMeasured t → ChildrenMeasured t
  IsMeasured-children leaf m = tt
  IsMeasured-children (node x h s l r) m = (m.2, m.3)

  recalculate-IsMeasured :
      (t : Tree A)
      → real_size t < size_mod
      → ChildrenMeasured t
      → IsMeasured (recalculate_height_and_size_with_data_from_two_childs t)
  unfolding recalculate_height_and_size_with_data_from_two_childs
  recalculate-IsMeasured leaf b m = tt
  recalculate-IsMeasured (node x h s l r) b m =
      let hl = height-eq l m.0 in
      let hr = height-eq r m.1 in
      let sl = size-eq l m.0 in
      let sr = size-eq r m.1 in
      let dl = real_height-le l in let dr = real_height-le r in (omega arith, omega arith, m.0, m.1)

  right_rotate-IsMeasured :
      (t : Tree A) → real_size t < size_mod → IsMeasured t → IsMeasured (right_rotate t true)
  unfolding right_rotate
  right_rotate-IsMeasured leaf b m = tt
  right_rotate-IsMeasured (node x h s leaf r) b m = m
  right_rotate-IsMeasured (node x h s (node px ph ps pl inner) r) b m =
      let low = node x h s inner r in
      recalculate-IsMeasured
        (node px ph ps pl (recalculate_height_and_size_with_data_from_two_childs low)) (omega arith)
        (m.2.2, recalculate-IsMeasured low (omega arith) (m.2.3, m.3))

  left_rotate-IsMeasured :
      (t : Tree A) → real_size t < size_mod → IsMeasured t → IsMeasured (left_rotate t true)
  unfolding left_rotate
  left_rotate-IsMeasured leaf b m = tt
  left_rotate-IsMeasured (node x h s l leaf) b m = m
  left_rotate-IsMeasured (node x h s l (node px ph ps inner pr)) b m =
      let low = node x h s l inner in
      recalculate-IsMeasured
        (node px ph ps (recalculate_height_and_size_with_data_from_two_childs low) pr) (omega arith)
        (recalculate-IsMeasured low (omega arith) (m.2, m.3.2), m.3.3)

  check-IsMeasured :
      (t : Tree A)
      → real_size t < size_mod
      → IsMeasured t
      → IsMeasured (check_and_restore_balance_of_level t)
  unfolding check_and_restore_balance_of_level
  check-IsMeasured leaf b m = tt
  check-IsMeasured (node x h s l r) b m = ground (
    arith,
    right_rotate-IsMeasured (node x h s l r) b m,
    left_rotate-IsMeasured (node x h s l r) b m,
  )

  -- A node count splits along the path.
  pub real_size-plug :
      (t : Tree A) (fs : Parents A)
      → real_size (plug t fs)
        ≡ length (before_parents fs) + (real_size t + length (after_parents fs))
  real_size-plug t fs = omega (
    arith,
    real_size-length (plug t fs),
    real_size-length t,
    ap length (to_list-plug t fs),
    length-append (before_parents fs) (to_list t ++ after_parents fs),
    length-append (to_list t) (after_parents fs),
  )

  real_size-restore_level : (t : Tree A) → real_size (restore_level t) ≡ real_size t
  real_size-restore_level t =
      real_size-length (restore_level t)
      ∙ (ap length (to_list-restore_level t) ∙ sym (real_size-length t))

  restore_level-IsMeasured :
      (t : Tree A) → real_size t < size_mod → ChildrenMeasured t → IsMeasured (restore_level t)
  unfolding recalculate_height_and_size_with_data_from_two_childs
  restore_level-IsMeasured leaf b m = check-IsMeasured leaf b tt
  restore_level-IsMeasured (node x h s l r) b m =
      check-IsMeasured _ b (recalculate-IsMeasured (node x h s l r) b m)

  fill-ChildrenMeasured :
      (f : Frame A) (fs : Parents A) (t : Tree A)
      → SidesMeasured (f ∷ fs)
      → IsMeasured t
      → ChildrenMeasured (fill f t) × SidesMeasured fs
  fill-ChildrenMeasured (left_of x h s r) fs t m k = ((k, m.0), m.1)
  fill-ChildrenMeasured (right_of x h s l) fs t m k = ((m.0, k), m.1)

  restore_levels-IsMeasured :
      (t : Tree A) (fs : Parents A)
      → real_size (plug t fs) < size_mod
      → ChildrenMeasured t
      → SidesMeasured fs
      → IsMeasured (restore_levels t fs)
  unfolding restore_levels
  restore_levels-IsMeasured t [] b m k = restore_level-IsMeasured t b m
  restore_levels-IsMeasured t (f ∷ fs) b m k =
      let level = restore_level t in
      let here : real_size t < size_mod = omega (arith, real_size-plug t (f ∷ fs)) in
      let up = fill-ChildrenMeasured f fs level k (restore_level-IsMeasured t here m) in
      let above : real_size (plug (fill f level) fs) < size_mod = omega (
        arith,
        real_size-plug t (f ∷ fs),
        real_size-plug level (f ∷ fs),
        real_size-restore_level t,
      ) in
      restore_levels-IsMeasured (fill f level) fs above up.0 up.1

  -- If the subtrees below and beside a path are measured, then so is the whole tree after the
  -- walk from the end of the path to the root.
  pub restore-IsMeasured :
      (t : Tree A) (fs : Parents A)
      → real_size (plug t fs) < size_mod
      → t ≢ leaf
      → ChildrenMeasured t
      → SidesMeasured fs
      → IsMeasured (restore_height_size_and_balance_of_tree t fs)
  unfolding restore_height_size_and_balance_of_tree
  restore-IsMeasured leaf fs b n m k = absurd (n refl)
  restore-IsMeasured (node x h s l r) fs b n m k =
      restore_levels-IsMeasured (node x h s l r) fs b m k
