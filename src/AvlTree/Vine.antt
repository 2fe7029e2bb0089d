-- ===== src/AvlTree/Vine.antt =====
-- random_access_list.hpp: `treeToVineWithPreserveInvariantsOnlyForMember_right`, which unrolls the
-- tree into a chain of right children, and the walk along that chain in `moveNodes`.
pub mod Laws
use garbage.Prelude.{
  ◌>>=◌, ℕ, zero, suc, Bool, true, false, [], ◌∷◌, List, Option, none, some, ◌==◌, if◌then◌else◌,
}
use garbage.AvlTree.Nodes.{
  Tree, leaf, node, Frame, left_of, right_of, Parents, Cursor, cursor_at, subtree,
}
use garbage.AvlTree.Balance.{right_rotate}
use garbage.AvlTree.Walk.{find_rightmost}

module _ {ℓ} {A : Type ℓ} where
  -- `_right` of a node, and `_parent`. `none` is NULL.
  abbrev pub right_child : Tree A → Parents A → Option (Cursor A)
  right_child leaf fs = none
  right_child (node x h s l leaf) fs = none
  right_child (node x h s l (node rx rh rs rl rr)) fs =
      some (cursor_at rx rh rs rl rr (right_of x h s l ∷ fs))

  abbrev pub parent : Tree A → Parents A → Option (Cursor A)
  parent t [] = none
  parent t (left_of x h s r ∷ fs) = some (cursor_at x h s t r fs)
  parent t (right_of x h s l ∷ fs) = some (cursor_at x h s l t fs)

  -- Both loops: one round of the inner one rotates, and one of the outer one goes up. `none` also
  -- if the fuel runs out.
  unfoldable pub unroll : ℕ → Cursor A → Option (Cursor A)
  unfolding right_rotate
  unroll zero current = none
  unroll (suc fuel) current = elim current.left [
    | leaf ↦ elim (parent (subtree current) current.parents) [
      | none ↦ some current
      | some above ↦ unroll fuel above
    ]
    | node x h s l r ↦ do
      below ← right_child (right_rotate (subtree current) false) current.parents
      unroll fuel below
  ]

  unfoldable pub tree_to_vine : ℕ → Tree A → Option (Cursor A)
  unfolding find_rightmost unroll
  tree_to_vine fuel root = do current ← find_rightmost root []; unroll fuel current

-- The walk along `_right` until `end_`. `none`: it reads NULL.
unfoldable pub chain_until : Tree ℕ → ℕ → Option (List ℕ)
chain_until leaf e = none
chain_until (node x h s l r) e =
    let rest = chain_until r e in if x == e then some [] else (do nodes ← rest; some (x ∷ nodes))
