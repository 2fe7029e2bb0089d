-- ===== src/AvlTree/Index.antt =====
-- random_access_list.hpp: `getIndex`, `getByIndex` and `go_to` of `avl_tree_stump`.
pub mod Laws
pub mod Steps
use garbage.Prelude.{
  ℕ, zero, suc, ◌+◌, Bool, [], ◌∷◌, Option, none, some, if◌then◌else◌, ltb, leb, ℤ, pos, negsuc,
  add_size, sub_size,
}
use garbage.AvlTree.Nodes.{
  Tree, leaf, node, left_of, right_of, Parents, Cursor, cursor_at, subtree, plug,
}
use garbage.AvlTree.Balance.{size}
use garbage.AvlTree.Walk.{forward, backward}

-- `maxLinearStepAmount`
abbrev pub max_linear_step_amount : ℕ
max_linear_step_amount = 2

module _ {ℓ} {A : Type ℓ} where
  -- The `leaf` clauses are dead: the source reads these of nodes.
  unfoldable pub left_subtree_size : Tree A → ℕ
  unfolding size
  left_subtree_size leaf = 0
  left_subtree_size (node x h s l r) = size l

  unfoldable pub right_subtree_size : Tree A → ℕ
  unfolding size
  right_subtree_size leaf = 0
  right_subtree_size (node x h s l r) = sub_size (sub_size s (size l)) 1

  unfoldable pub right_path_size : Tree A → ℕ
  unfolding right_subtree_size
  right_path_size leaf = 0
  right_path_size (node x h s l r) =
      sub_size (right_subtree_size (node x h s l r)) (right_subtree_size r)

  unfoldable pub left_path_size : Tree A → ℕ
  unfolding left_subtree_size
  left_path_size leaf = 0
  left_path_size (node x h s leaf r) = 0
  left_path_size (node x h s (node lx lh ls ll lr) r) =
      sub_size (left_subtree_size (node x h s (node lx lh ls ll lr) r))
        (left_subtree_size (node lx lh ls ll lr))

  -- The loop up to the root, with `index_accumulator`, which may go below 0 and wrap.
  unfoldable pub get_index_from : Tree A → Parents A → ℕ → ℕ
  unfolding left_subtree_size left_path_size right_path_size
  get_index_from t [] acc = sub_size (left_subtree_size t) acc
  get_index_from t (left_of x h s r ∷ fs) acc =
      get_index_from (node x h s t r) fs (add_size acc (left_path_size (node x h s t r)))
  get_index_from t (right_of x h s l ∷ fs) acc =
      get_index_from (node x h s l t) fs (sub_size acc (right_path_size (node x h s l t)))

  unfoldable pub get_index : Cursor A → ℕ
  unfolding get_index_from
  get_index c = get_index_from (subtree c) c.parents 0

  -- The loop down, with `left_index_border`.
  unfoldable pub get_by_index_from : ℕ → ℕ → Tree A → Parents A → Option (Cursor A)
  unfolding size
  get_by_index_from target border leaf fs = none
  get_by_index_from target border (node x h s l r) fs =
      let current = add_size border (size l) in
      let on_left = get_by_index_from target border l (left_of x h s r ∷ fs) in
      let on_right =
        get_by_index_from target (add_size (add_size border (size l)) 1) r
          (right_of x h s l ∷ fs) in
      if ltb target current
      then on_left
      else (if ltb current target then on_right else some (cursor_at x h s l r fs))

  unfoldable pub get_by_index : Tree A → ℕ → Option (Cursor A)
  unfolding size get_by_index_from
  get_by_index leaf target = none
  get_by_index (node x h s l r) target =
      if leb s target then none else get_by_index_from target 0 (node x h s l r) []

  -- `applyNTimes` of `forward` or `backward`: NULL stays NULL.
  unfoldable pub apply_n_times : (Cursor A → Option (Cursor A)) → ℕ → Cursor A → Option (Cursor A)
  apply_n_times f zero c = some c
  apply_n_times f (suc n) c = elim (f c) [ none ↦ none | some d ↦ apply_n_times f n d ]

  unfoldable pub go_to : Cursor A → ℤ → Option (Cursor A)
  unfolding apply_n_times get_index get_by_index forward backward
  go_to c (pos n) =
      if leb n max_linear_step_amount
      then apply_n_times forward n c
      else get_by_index (plug (subtree c) c.parents) (add_size (get_index c) n)
  go_to c (negsuc n) =
      if leb (n + 1) max_linear_step_amount
      then apply_n_times backward (n + 1) c
      else get_by_index (plug (subtree c) c.parents) (sub_size (get_index c) (n + 1))

  -- `distance`, as a wrapped difference of indices.
  unfoldable pub distance : Cursor A → Cursor A → ℕ
  unfolding get_index
  distance left right = sub_size (get_index right) (get_index left)
