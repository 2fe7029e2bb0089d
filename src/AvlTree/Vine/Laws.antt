-- ===== src/AvlTree/Vine/Laws.antt =====
-- The unrolled tree is a chain of the same nodes in the same order, and the loops end.
use garbage.Prelude.{
  ℕ, zero, suc, ◌+◌, ◌*◌, ◌<◌, ◌≤◌, ◌≡◌, refl, sym, ◌∙◌, false, [], ◌∷◌, ◌++◌, List, some, subst,
  arith, append_assoc, NotIn, ◌==◌, ==_iff,
}
use mathlib.Core.List.{head-eq_of_cons-eq, tail-eq_of_cons-eq}
use garbage.AvlTree.Nodes.{
  Tree, leaf, node, left_of, right_of, Parents, Cursor, cursor_at, subtree, to_list, before_parents,
}
use garbage.AvlTree.Balance.{right_rotate}
use garbage.AvlTree.Balance.Caches.{real_size}
use garbage.AvlTree.Walk.{find_rightmost}
use garbage.AvlTree.Vine.{unroll, tree_to_vine, chain_until}

module _ {ℓ} {A : Type ℓ} where
  -- No node of the tree has a left child.
  abbrev pub IsChain : Tree A → Type 0
  IsChain leaf = Unit
  IsChain (node x h s leaf r) = IsChain r
  IsChain (node x h s (node lx lh ls ll lr) r) = ⊥

  -- The place is reached through right children alone.
  abbrev pub AllRight : Parents A → Type 0
  AllRight [] = Unit
  AllRight (left_of x h s r ∷ fs) = ⊥
  AllRight (right_of x h s l ∷ fs) = AllRight fs

  -- The rounds that are left to do in the places above.
  abbrev pub rounds_above : Parents A → ℕ
  rounds_above [] = 0
  rounds_above (left_of x h s r ∷ fs) = rounds_above fs
  rounds_above (right_of x h s l ∷ fs) = 1 + 2 * real_size l + rounds_above fs

  -- A chain with the nodes `nodes`.
  pub record Unrolls (nodes : List A) (c : Cursor A) : Type ℓ where
    pub chain : IsChain (subtree c)
    pub order : to_list (subtree c) ≡ nodes

  unroll-Unrolls :
      (fuel : ℕ) (x : A) (h s : ℕ) (l r : Tree A) (fs : Parents A)
      → IsChain r
      → AllRight fs
      → 2 * real_size l + rounds_above fs < fuel
      → (c : Cursor A) × (unroll fuel (cursor_at x h s l r fs) ≡ some c)
        × Unrolls (before_parents fs ++ to_list (node x h s l r)) c
  unfolding unroll right_rotate
  unroll-Unrolls zero x h s l r fs k a b = absurd (omega arith)
  unroll-Unrolls (suc fuel) x h s leaf r [] k a b =
      (cursor_at x h s leaf r [], refl, record { chain = k; order = refl })
  unroll-Unrolls (suc fuel) x h s leaf r (left_of px ph ps pr ∷ fs) k a b = absurd a
  unroll-Unrolls (suc fuel) x h s leaf r (right_of px ph ps pl ∷ fs) k a b =
      let (c, runs, u) = unroll-Unrolls fuel px ph ps pl (node x h s leaf r) fs k a (omega arith) in
      (c, runs, record { chain = u.chain; order = u.order ∙ simp append_assoc })
  unroll-Unrolls (suc fuel) x h s (node px ph ps pl inner) r fs k a b =
      let (c, runs, u) =
        unroll-Unrolls fuel x h s inner r (right_of px ph ps pl ∷ fs) k a (omega arith) in
      (c, runs, record { chain = u.chain; order = u.order ∙ simp append_assoc })

  rightmost_rounds :
      (x : A) (h s : ℕ) (l r : Tree A) (fs : Parents A)
      → AllRight fs
      → (c : Cursor A) × (find_rightmost (node x h s l r) fs ≡ some c)
        × (c.right ≡ leaf)
        × AllRight c.parents
        × (2 * real_size c.left + rounds_above c.parents
            < 2 * real_size (node x h s l r) + rounds_above fs)
        × (before_parents c.parents ++ to_list (subtree c)
            ≡ before_parents fs ++ to_list (node x h s l r))
  unfolding find_rightmost
  rightmost_rounds x h s l leaf fs a = (cursor_at x h s l leaf fs, refl, refl, a, omega arith, refl)
  rightmost_rounds x h s l (node rx rh rs rl rr) fs a =
      let (c, found, last, right, rounds, order) =
        rightmost_rounds rx rh rs rl rr (right_of x h s l ∷ fs) a in
      (c, found, last, right, omega arith, order ∙ simp append_assoc)

  -- Two rounds for each node are enough, and the chain has the nodes of the tree in their order.
  pub tree_to_vine-Unrolls :
      (fuel : ℕ) (x : A) (h s : ℕ) (l r : Tree A)
      → 2 * real_size (node x h s l r) ≤ fuel
      → (c : Cursor A) × (tree_to_vine fuel (node x h s l r) ≡ some c)
        × Unrolls (to_list (node x h s l r)) c
  unfolding tree_to_vine
  tree_to_vine-Unrolls fuel x h s l r b =
      let (c, found, last, right, rounds, order) = rightmost_rounds x h s l r [] tt in
      let (d, runs, u) =
        unroll-Unrolls fuel c.item c.height c.size c.left c.right c.parents
          (subst IsChain (sym last) tt) right (omega arith) in
      (d, rw (found, tree_to_vine) runs, record { chain = u.chain; order = u.order ∙ order })

-- Along a chain, the walk lists what stands before the end node.
pub chain_until-append :
    (t : Tree ℕ) (nodes : List ℕ) (e : ℕ) (rest : List ℕ)
    → IsChain t
    → to_list t ≡ nodes ++ e ∷ rest
    → NotIn e nodes
    → chain_until t e ≡ some nodes
unfolding chain_until
chain_until-append leaf [] e rest k o n = cc o
chain_until-append leaf (y ∷ nodes) e rest k o n = cc o
chain_until-append (node x h s (node lx lh ls ll lr) r) nodes e rest k o n = absurd k
chain_until-append (node x h s leaf r) [] e rest k o n =
    let same = head-eq_of_cons-eq o in rw ((==_iff x e).1 same) refl
chain_until-append (node x h s leaf r) (y ∷ nodes) e rest k o n =
    let same = head-eq_of_cons-eq o in
    let other : (x == e) ≡ false = ground (arith, n.0) in
    rw (other, chain_until-append r nodes e rest k (tail-eq_of_cons-eq o) n.1, same) refl
