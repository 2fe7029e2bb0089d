-- ===== src/AvlTree/Walk/Laws.antt =====
-- Each walk of `avl_tree_stump` ends at the node that its name promises, in the same tree.
use garbage.Prelude.{
  ℕ, ◌≡◌, refl, ◌∙◌, sym, [], ◌∷◌, ◌++◌, Option, none, some, append_assoc, append-nil,
}
use garbage.AvlTree.Nodes.{
  Tree, leaf, node, left_of, right_of, Parents, Cursor, cursor_at, subtree, plug, to_list,
  before_parents, after_parents, before, after,
}
use garbage.AvlTree.Walk.{
  find_rightmost, find_leftmost, climb_while_right, climb_while_left, forward, backward,
}

module _ {ℓ} {A : Type ℓ} where
  abbrev pub root : Cursor A → Tree A
  root c = plug (subtree c) c.parents

  -- `c` is the last node of the subtree `t` at the end of the path `fs`.
  pub record IsLast (t : Tree A) (fs : Parents A) (c : Cursor A) : Type ℓ where
    pub same_root : root c ≡ plug t fs
    pub no_right : c.right ≡ leaf
    pub first : before c ++ c.item ∷ [] ≡ before_parents fs ++ to_list t
    pub rest : after_parents c.parents ≡ after_parents fs

  pub record IsFirst (t : Tree A) (fs : Parents A) (c : Cursor A) : Type ℓ where
    pub same_root : root c ≡ plug t fs
    pub no_left : c.left ≡ leaf
    pub first : before_parents c.parents ≡ before_parents fs
    pub rest : c.item ∷ after c ≡ to_list t ++ after_parents fs

  pub find_rightmost-IsLast :
      (x : A) (h s : ℕ) (l r : Tree A) (fs : Parents A)
      → (c : Cursor A) × (find_rightmost (node x h s l r) fs ≡ some c)
        × IsLast (node x h s l r) fs c
  unfolding find_rightmost
  find_rightmost-IsLast x h s l leaf fs = (
    cursor_at x h s l leaf fs,
    refl,
    record { same_root = refl; no_right = refl; first = simp append_assoc; rest = refl },
  )
  find_rightmost-IsLast x h s l (node rx rh rs rl rr) fs =
      let (c, e, p) = find_rightmost-IsLast rx rh rs rl rr (right_of x h s l ∷ fs) in
      (
        c,
        e,
        record {
          same_root = p.same_root;
          no_right = p.no_right;
          first = p.first ∙ simp append_assoc;
          rest = p.rest;
        },
      )

  pub find_leftmost-IsFirst :
      (x : A) (h s : ℕ) (l r : Tree A) (fs : Parents A)
      → (c : Cursor A) × (find_leftmost (node x h s l r) fs ≡ some c)
        × IsFirst (node x h s l r) fs c
  unfolding find_leftmost
  find_leftmost-IsFirst x h s leaf r fs = (
    cursor_at x h s leaf r fs,
    refl,
    record { same_root = refl; no_left = refl; first = refl; rest = refl },
  )
  find_leftmost-IsFirst x h s (node lx lh ls ll lr) r fs =
      let (c, e, p) = find_leftmost-IsFirst lx lh ls ll lr (left_of x h s r ∷ fs) in
      (
        c,
        e,
        record {
          same_root = p.same_root;
          no_left = p.no_left;
          first = p.first;
          rest = p.rest ∙ simp append_assoc;
        },
      )

  -- The step from a cursor to the next node, or past the last one.
  abbrev pub IsNext : Cursor A → Option (Cursor A) → Type ℓ
  IsNext c none = after c ≡ []
  IsNext c (some d) =
      (root d ≡ root c) × (before d ≡ before c ++ c.item ∷ []) × (after c ≡ d.item ∷ after d)

  abbrev pub IsPrevious : Cursor A → Option (Cursor A) → Type ℓ
  IsPrevious c none = before c ≡ []
  IsPrevious c (some d) =
      (root d ≡ root c) × (before c ≡ before d ++ d.item ∷ []) × (after d ≡ c.item ∷ after c)

  -- What a climb from the subtree `t` at the end of `fs` finds.
  abbrev IsAbove : Tree A → Parents A → Option (Cursor A) → Type ℓ
  IsAbove t fs none = after_parents fs ≡ []
  IsAbove t fs (some d) =
      (root d ≡ plug t fs)
      × (before d ≡ before_parents fs ++ to_list t)
      × (after_parents fs ≡ d.item ∷ after d)

  abbrev IsBelow : Tree A → Parents A → Option (Cursor A) → Type ℓ
  IsBelow t fs none = before_parents fs ≡ []
  IsBelow t fs (some d) =
      (root d ≡ plug t fs)
      × (before_parents fs ≡ before d ++ d.item ∷ [])
      × (after d ≡ to_list t ++ after_parents fs)

  IsAbove-right :
      (x : A) (h s : ℕ) (l t : Tree A) (fs : Parents A) (o : Option (Cursor A))
      → IsAbove (node x h s l t) fs o
      → IsAbove t (right_of x h s l ∷ fs) o
  IsAbove-right x h s l t fs none k = k
  IsAbove-right x h s l t fs (some d) k = (k.0, k.1 ∙ simp append_assoc, k.2)

  IsBelow-left :
      (x : A) (h s : ℕ) (r t : Tree A) (fs : Parents A) (o : Option (Cursor A))
      → IsBelow (node x h s t r) fs o
      → IsBelow t (left_of x h s r ∷ fs) o
  IsBelow-left x h s r t fs none k = k
  IsBelow-left x h s r t fs (some d) k = (k.0, k.1, k.2 ∙ simp append_assoc)

  climb_while_right-IsAbove : (t : Tree A) (fs : Parents A) → IsAbove t fs (climb_while_right t fs)
  unfolding climb_while_right
  climb_while_right-IsAbove t [] = refl
  climb_while_right-IsAbove t (left_of x h s r ∷ fs) = (refl, refl, refl)
  climb_while_right-IsAbove t (right_of x h s l ∷ fs) =
      IsAbove-right x h s l t fs _ (climb_while_right-IsAbove (node x h s l t) fs)

  climb_while_left-IsBelow : (t : Tree A) (fs : Parents A) → IsBelow t fs (climb_while_left t fs)
  unfolding climb_while_left
  climb_while_left-IsBelow t [] = refl
  climb_while_left-IsBelow t (left_of x h s r ∷ fs) =
      IsBelow-left x h s r t fs _ (climb_while_left-IsBelow (node x h s t r) fs)
  climb_while_left-IsBelow t (right_of x h s l ∷ fs) = (refl, simp append_assoc, refl)

  IsNext-above :
      (x : A) (h s : ℕ) (l : Tree A) (fs : Parents A) (o : Option (Cursor A))
      → IsAbove (node x h s l leaf) fs o
      → IsNext (cursor_at x h s l leaf fs) o
  IsNext-above x h s l fs none k = k
  IsNext-above x h s l fs (some d) k = (k.0, k.1 ∙ simp append_assoc, k.2)

  IsPrevious-below :
      (x : A) (h s : ℕ) (r : Tree A) (fs : Parents A) (o : Option (Cursor A))
      → IsBelow (node x h s leaf r) fs o
      → IsPrevious (cursor_at x h s leaf r fs) o
  IsPrevious-below x h s r fs none k = rw append-nil k
  IsPrevious-below x h s r fs (some d) k = (k.0, rw append-nil k.1, k.2)

  forward_at :
      (x : A) (h s : ℕ) (l r : Tree A) (fs : Parents A)
      → IsNext (cursor_at x h s l r fs) (forward (cursor_at x h s l r fs))
  unfolding forward
  forward_at x h s l leaf fs =
      IsNext-above x h s l fs _ (climb_while_right-IsAbove (node x h s l leaf) fs)
  forward_at x h s l (node rx rh rs rl rr) fs =
      let (d, e, p) = find_leftmost-IsFirst rx rh rs rl rr (right_of x h s l ∷ fs) in
      rw e (p.same_root, rw (p.first, p.no_left) (simp append_assoc), sym p.rest)

  backward_at :
      (x : A) (h s : ℕ) (l r : Tree A) (fs : Parents A)
      → IsPrevious (cursor_at x h s l r fs) (backward (cursor_at x h s l r fs))
  unfolding backward
  backward_at x h s leaf r fs =
      IsPrevious-below x h s r fs _ (climb_while_left-IsBelow (node x h s leaf r) fs)
  backward_at x h s (node lx lh ls ll lr) r fs =
      let (d, e, p) = find_rightmost-IsLast lx lh ls ll lr (left_of x h s r ∷ fs) in
      rw e (p.same_root, sym p.first, rw (p.no_right, p.rest) refl)

  -- forward goes to the next node in order in the same tree, and gives NULL only at the last.
  pub forward-IsNext : (c : Cursor A) → IsNext c (forward c)
  forward-IsNext c = forward_at c.item c.height c.size c.left c.right c.parents

  -- backward goes to the previous node in order in the same tree, and gives NULL only at the
  -- first.
  pub backward-IsPrevious : (c : Cursor A) → IsPrevious c (backward c)
  backward-IsPrevious c = backward_at c.item c.height c.size c.left c.right c.parents
