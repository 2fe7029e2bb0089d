-- ===== src/RandomAccessList/Stump/Locate.antt =====
-- An address of a tree with distinct addresses leads to its one node.
use garbage.Prelude.{
  ℕ, ◌≡◌, refl, sym, subst, ap, ◌∙◌, [], ◌∷◌, ◌++◌, List, Option, none, some, arith, inl, inr,
  NotIn, NotIn-append, NotIn-parts, ◌≢◌, Distinct, Distinct-middle, split_unique, ◌==◌, Bool-cases,
  ==_iff,
}
use garbage.AvlTree.Nodes.{
  Tree, leaf, node, left_of, right_of, Parents, Cursor, plug, to_list, before, after,
  to_list-cursor,
}
use garbage.AvlTree.Walk.Laws.{root}
use garbage.RandomAccessList.Stump.{locate_in, or_else}

abbrev LocateResult : ℕ → Tree ℕ → Parents ℕ → Option (Cursor ℕ) → Type 0
LocateResult a t fs none = NotIn a (to_list t)
LocateResult a t fs (some c) = (root c ≡ plug t fs) × (c.item ≡ a)

LocateResult-or_else :
    (a x : ℕ) (h s : ℕ) (l r : Tree ℕ) (fs : Parents ℕ) (on_left on_right : Option (Cursor ℕ))
    → a ≢ x
    → LocateResult a l (left_of x h s r ∷ fs) on_left
    → LocateResult a r (right_of x h s l ∷ fs) on_right
    → LocateResult a (node x h s l r) fs (or_else on_left on_right)
LocateResult-or_else a x h s l r fs none none ne k m =
    NotIn-append a (to_list l) (x ∷ to_list r) k (ne, m)
LocateResult-or_else a x h s l r fs none (some c) ne k m = m
LocateResult-or_else a x h s l r fs (some c) o ne k m = k

locate_in-LocateResult :
    (a : ℕ) (t : Tree ℕ) (fs : Parents ℕ) → LocateResult a t fs (locate_in a t fs)
unfolding locate_in
locate_in-LocateResult a leaf fs = tt
locate_in-LocateResult a (node x h s l r) fs = elim (Bool-cases (x == a)) [
  | inl hit ↦ rw hit (refl, (==_iff x a).0 hit)
  | inr miss ↦ rw miss (
      LocateResult-or_else a x h s l r fs _ _ (ground arith)
        (locate_in-LocateResult a l (left_of x h s r ∷ fs))
        (locate_in-LocateResult a r (right_of x h s l ∷ fs)))
]

-- `c` is the node of the tree `t` at `a`, with these nodes before and after it.
pub record IsNodeAt (t : Tree ℕ) (xs : List ℕ) (a : ℕ) (ys : List ℕ) (c : Cursor ℕ) : Type 0 where
  pub same_root : root c ≡ t
  pub at : c.item ≡ a
  pub nodes_before : before c ≡ xs
  pub nodes_after : after c ≡ ys

locate_found :
    (t : Tree ℕ) (xs : List ℕ) (a : ℕ) (ys : List ℕ) (o : Option (Cursor ℕ))
    → to_list t ≡ xs ++ a ∷ ys
    → Distinct (to_list t)
    → LocateResult a t [] o
    → (c : Cursor ℕ) × (o ≡ some c) × IsNodeAt t xs a ys c
locate_found t xs a ys none e d k =
    absurd ((NotIn-parts a xs (a ∷ ys) (subst (NotIn a) e k)).1.0 refl)
locate_found t xs a ys (some c) e d (same, at) =
    let whole : to_list t ≡ before c ++ a ∷ after c =
      ap to_list (sym same) ∙ (to_list-cursor c ∙ ap (λ z. before c ++ z ∷ after c) at) in
    let parts =
      split_unique (before c) xs a (after c) ys (sym whole ∙ e)
        (Distinct-middle (before c) a (after c) (subst Distinct whole d)).0
        (Distinct-middle xs a ys (subst Distinct e d)).0 in
    (c, refl, record { same_root = same; at = at; nodes_before = parts.0; nodes_after = parts.1 })

-- Where an address stands in a tree of distinct addresses, `locate_in` finds its node.
pub locate_in-IsNodeAt :
    (t : Tree ℕ) (xs : List ℕ) (a : ℕ) (ys : List ℕ)
    → to_list t ≡ xs ++ a ∷ ys
    → Distinct (to_list t)
    → (c : Cursor ℕ) × (locate_in a t [] ≡ some c) × IsNodeAt t xs a ys c
locate_in-IsNodeAt t xs a ys e d = locate_found t xs a ys _ e d (locate_in-LocateResult a t [])
