-- ===== src/AvlTree/Edit/Caches.antt =====
-- random_access_list.hpp: the heights and sizes that `insert_before` and `delete_` restore.
use garbage.Prelude.{ℕ, ◌+◌, ◌<◌, ◌≡◌, ◌≢◌, refl, sym, subst, ap, [], ◌∷◌, ◌++◌, arith, size_mod}
use garbage.AvlTree.Nodes.{
  Tree, leaf, node, Frame, left_of, right_of, Parents, Cursor, cursor_at, fill, plug,
}
use garbage.AvlTree.Balance.Caches.{
  IsMeasured, SidesMeasured, ChildrenMeasured, real_size, real_size-plug, restore-IsMeasured,
}
use garbage.AvlTree.Walk.Laws.{root, find_rightmost-IsLast}
use garbage.AvlTree.Edit.{new_node, attach_before, restore_from_parent, detach}

module _ {ℓ} {A : Type ℓ} where
  IsMeasured-fill :
      (f : Frame A) (fs : Parents A) (t : Tree A)
      → IsMeasured (fill f t)
      → SidesMeasured fs
      → IsMeasured t × SidesMeasured (f ∷ fs)
  IsMeasured-fill (left_of x h s r) fs t m k = (m.2, (m.3, k))
  IsMeasured-fill (right_of x h s l) fs t m k = (m.3, (m.2, k))

  -- In a measured tree the subtree at the end of a path and those beside it are measured.
  pub IsMeasured-plug :
      (t : Tree A) (fs : Parents A) → IsMeasured (plug t fs) → IsMeasured t × SidesMeasured fs
  IsMeasured-plug t [] m = (m, tt)
  IsMeasured-plug t (f ∷ fs) m =
      let up = IsMeasured-plug (fill f t) fs m in IsMeasured-fill f fs t up.0 up.1

  plug-append : (t : Tree A) (ps fs : Parents A) → plug t (ps ++ fs) ≡ plug (plug t ps) fs
  plug-append t [] fs = refl
  plug-append t (p ∷ ps) fs = plug-append (fill p t) ps fs

  SidesMeasured-append :
      (ps fs : Parents A) → SidesMeasured ps → SidesMeasured fs → SidesMeasured (ps ++ fs)
  SidesMeasured-append [] fs k m = m
  SidesMeasured-append (left_of x h s r ∷ ps) fs k m = (k.0, SidesMeasured-append ps fs k.1 m)
  SidesMeasured-append (right_of x h s l ∷ ps) fs k m = (k.0, SidesMeasured-append ps fs k.1 m)

  fill-ne-leaf : (f : Frame A) (t : Tree A) → fill f t ≢ leaf
  fill-ne-leaf (left_of x h s r) t e = cc
  fill-ne-leaf (right_of x h s l) t e = cc

  fill-ChildrenMeasured :
      (f : Frame A) (fs : Parents A) (t : Tree A)
      → IsMeasured t
      → SidesMeasured (f ∷ fs)
      → ChildrenMeasured (fill f t) × SidesMeasured fs
  fill-ChildrenMeasured (left_of x h s r) fs t m k = ((m, k.0), k.1)
  fill-ChildrenMeasured (right_of x h s l) fs t m k = ((k.0, m), k.1)

  restore_from_parent-IsMeasured :
      (t : Tree A) (fs : Parents A)
      → real_size (plug t fs) < size_mod
      → IsMeasured t
      → SidesMeasured fs
      → IsMeasured (restore_from_parent t fs)
  unfolding restore_from_parent
  restore_from_parent-IsMeasured t [] b m k = m
  restore_from_parent-IsMeasured t (f ∷ fs) b m k =
      let up = fill-ChildrenMeasured f fs t m k in
      restore-IsMeasured (fill f t) fs b (fill-ne-leaf f t) up.0 up.1

  attach_at-IsMeasured :
      (x item : A) (h s : ℕ) (l r : Tree A) (fs : Parents A)
      → let it = cursor_at item h s l r fs in
        IsMeasured (root it) → real_size (root it) + 1 < size_mod → IsMeasured (attach_before it x)
  unfolding attach_before
  attach_at-IsMeasured x item h s leaf r fs m b =
      let at = IsMeasured-plug (node item h s leaf r) fs m in
      let t = node item h s (new_node x) r in
      restore-IsMeasured t fs
        (omega (arith, real_size-plug t fs, real_size-plug (node item h s leaf r) fs)) (λ e. cc)
        ((refl, refl, tt, tt), at.0.3) at.1
  attach_at-IsMeasured x item h s (node lx lh ls ll lr) r fs m b =
      let (last, e, p) = find_rightmost-IsLast lx lh ls ll lr (left_of item h s r ∷ fs) in
      let old = node last.item last.height last.size last.left last.right in
      let at = IsMeasured-plug old last.parents (subst IsMeasured (sym p.same_root) m) in
      let t = node last.item last.height last.size last.left (new_node x) in
      rw e (
        restore-IsMeasured t last.parents
          (omega (
            arith,
            real_size-plug t last.parents,
            real_size-plug old last.parents,
            ap real_size p.same_root,
            ap real_size p.no_right,
          ))
          (λ q. cc) (at.0.2, (refl, refl, tt, tt)) at.1)

  detach_at-IsMeasured :
      (item : A) (h s : ℕ) (l r : Tree A) (fs : Parents A)
      → let c = cursor_at item h s l r fs in
        IsMeasured (root c) → real_size (root c) < size_mod → IsMeasured (detach c)
  unfolding detach
  detach_at-IsMeasured item h s leaf r fs m b =
      let at = IsMeasured-plug (node item h s leaf r) fs m in
      restore_from_parent-IsMeasured r fs
        (omega (arith, real_size-plug r fs, real_size-plug (node item h s leaf r) fs)) at.0.3 at.1
  detach_at-IsMeasured item h s (node lx lh ls ll lr) r fs m b =
      let whole = node item h s (node lx lh ls ll lr) r in
      let at = IsMeasured-plug whole fs m in
      let (last, e, p) = find_rightmost-IsLast lx lh ls ll lr [] in
      let old = node last.item last.height last.size last.left last.right in
      let in_left = IsMeasured-plug old last.parents (subst IsMeasured (sym p.same_root) at.0.2) in
      let place = left_of last.item last.height last.size r ∷ fs in
      let sides = SidesMeasured-append last.parents place in_left.1 (at.0.3, at.1) in
      rw e (
        restore_from_parent-IsMeasured last.left (last.parents ++ place)
          (omega (
            arith,
            ap real_size (plug-append last.left last.parents place),
            ap real_size p.same_root,
            real_size-plug last.left last.parents,
            real_size-plug old last.parents,
            real_size-plug (plug last.left (last.parents ++ place)) [],
            real_size-plug whole fs,
            real_size-plug (node last.item last.height last.size (plug last.left last.parents) r)
                fs,
          ))
          in_left.0.2 sides)

  -- insert_before keeps every cached height and size real, if they were and the new node count is
  -- below 2^64.
  pub attach_before-IsMeasured :
      (it : Cursor A) (x : A)
      → IsMeasured (root it)
      → real_size (root it) + 1 < size_mod
      → IsMeasured (attach_before it x)
  attach_before-IsMeasured it x m b =
      attach_at-IsMeasured x it.item it.height it.size it.left it.right it.parents m b

  -- delete_ keeps every cached height and size real, if they were and the node count is below
  -- 2^64.
  pub detach-IsMeasured :
      (c : Cursor A) → IsMeasured (root c) → real_size (root c) < size_mod → IsMeasured (detach c)
  detach-IsMeasured c m b = detach_at-IsMeasured c.item c.height c.size c.left c.right c.parents m b
