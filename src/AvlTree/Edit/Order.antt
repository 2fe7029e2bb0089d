-- ===== src/AvlTree/Edit/Order.antt =====
-- Insertion and deletion as edits of the in-order sequence of nodes.
use garbage.Prelude.{ℕ, ◌≡◌, refl, sym, ap, ap₂, ◌∙◌, List, [], ◌∷◌, ◌++◌, append_assoc, append-nil}
use garbage.AvlTree.Nodes.{
  Tree, leaf, node, left_of, right_of, Parents, Cursor, cursor_at, plug, to_list, before_parents,
  after_parents, before, after, to_list-plug,
}
use garbage.AvlTree.Balance.Order.{to_list-restore}
use garbage.AvlTree.Walk.Laws.{find_rightmost-IsLast}
use garbage.AvlTree.Edit.{new_node, attach_before, restore_from_parent, detach}

module _ {ℓ} {A : Type ℓ} where
  pub before_parents-append :
      (ps fs : Parents A) → before_parents (ps ++ fs) ≡ before_parents fs ++ before_parents ps
  before_parents-append [] fs = sym (append-nil _)
  before_parents-append (left_of x h s r ∷ ps) fs = before_parents-append ps fs
  before_parents-append (right_of x h s l ∷ ps) fs =
      rw (before_parents-append ps fs) (simp append_assoc)

  pub after_parents-append :
      (ps fs : Parents A) → after_parents (ps ++ fs) ≡ after_parents ps ++ after_parents fs
  after_parents-append [] fs = refl
  after_parents-append (left_of x h s r ∷ ps) fs =
      rw (after_parents-append ps fs) (simp append_assoc)
  after_parents-append (right_of x h s l ∷ ps) fs = after_parents-append ps fs

  to_list-restore_from_parent :
      (t : Tree A) (fs : Parents A) → to_list (restore_from_parent t fs) ≡ to_list (plug t fs)
  unfolding restore_from_parent
  to_list-restore_from_parent t [] = refl
  to_list-restore_from_parent t (f ∷ fs) = to_list-restore _ fs

  regroup_attach :
      (p l q : List A) (y x : A) → p ++ ((l ++ y ∷ x ∷ []) ++ q) ≡ (p ++ l ++ y ∷ []) ++ x ∷ q
  regroup_attach p l q y x = simp append_assoc

  regroup_detach :
      (b p l z : List A) (y : A) → b ++ p ++ (l ++ ([] ++ y ∷ z)) ≡ b ++ (p ++ l ++ y ∷ []) ++ z
  regroup_detach b p l z y = simp append_assoc

  to_list-attach_at :
      (x item : A) (h s : ℕ) (l r : Tree A) (fs : Parents A)
      → let it = cursor_at item h s l r fs in
        to_list (attach_before it x) ≡ before it ++ x ∷ item ∷ after it
  unfolding attach_before
  to_list-attach_at x item h s leaf r fs =
      let t = node item h s (new_node x) r in
      to_list-restore t fs ∙ (to_list-plug t fs ∙ simp (append_assoc, append-nil))
  to_list-attach_at x item h s (node lx lh ls ll lr) r fs =
      let (last, e, p) = find_rightmost-IsLast lx lh ls ll lr (left_of item h s r ∷ fs) in
      let t = node last.item last.height last.size last.left (new_node x) in
      rw e (
        to_list-restore t last.parents
        ∙ (to_list-plug t last.parents
            ∙ (regroup_attach (before_parents last.parents) (to_list last.left)
                  (after_parents last.parents) last.item x
                ∙ ap₂ (λ u v. u ++ x ∷ v) p.first p.rest)))

  to_list-detach_at :
      (item : A) (h s : ℕ) (l r : Tree A) (fs : Parents A)
      → let c = cursor_at item h s l r fs in to_list (detach c) ≡ before c ++ after c
  unfolding detach
  to_list-detach_at item h s leaf r fs =
      to_list-restore_from_parent r fs ∙ (to_list-plug r fs ∙ simp append-nil)
  to_list-detach_at item h s (node lx lh ls ll lr) r fs =
      let (last, e, p) = find_rightmost-IsLast lx lh ls ll lr [] in
      let place = left_of last.item last.height last.size r ∷ fs in
      let path = last.parents ++ place in
      rw e (
        to_list-restore_from_parent last.left path
        ∙ (to_list-plug last.left path
            ∙ (ap₂ (λ u v. u ++ (to_list last.left ++ v)) (before_parents-append last.parents place)
                  (after_parents-append last.parents place
                    ∙ ap (λ u. u ++ after_parents place) p.rest)
                ∙ (regroup_detach (before_parents fs) (before_parents last.parents)
                      (to_list last.left) (to_list r ++ after_parents fs) last.item
                    ∙ ap (λ u. before_parents fs ++ u ++ (to_list r ++ after_parents fs))
                        p.first))))

  -- insert_before links the new node right before its iterator's node and keeps the order of all
  -- others, through every rotation.
  pub to_list-attach_before :
      (it : Cursor A) (x : A) → to_list (attach_before it x) ≡ before it ++ x ∷ it.item ∷ after it
  to_list-attach_before it x =
      to_list-attach_at x it.item it.height it.size it.left it.right it.parents

  -- delete_ takes exactly its node out of the order of the nodes, through every rotation.
  pub to_list-detach : (c : Cursor A) → to_list (detach c) ≡ before c ++ after c
  to_list-detach c = to_list-detach_at c.item c.height c.size c.left c.right c.parents
