-- ===== src/RandomAccessList/Iterators/Laws.antt =====
-- random_access_list.hpp: where the moves of an iterator lead in the sequence of nodes.
use garbage.Prelude.{
  ◌>>=◌, ℕ, suc, ◌+◌, ◌<◌, ◌≡◌, sym, ap, subst, ◌∙◌, [], ◌∷◌, ◌++◌, List, some, arith, Distinct,
  length, length-append, get_elem?, pos, negsuc,
}
use garbage.AvlTree.Nodes.{Cursor, to_list, before, after, to_list-cursor}
use garbage.AvlTree.Balance.Caches.{IsMeasured, real_size}
use garbage.AvlTree.Walk.Laws.{root}
use garbage.AvlTree.Index.{go_to}
use garbage.AvlTree.Index.Steps.{go_to-forward, go_to-backward}
use garbage.RandomAccessList.Stump.{Stump, locate_in}
use garbage.RandomAccessList.Stump.Locate.{IsNodeAt, locate_in-IsNodeAt}
use garbage.RandomAccessList.Stump.Laws.{Holds, HasNodes-size}
use garbage.RandomAccessList.Stump.Deletion.{around_deleted}
use garbage.RandomAccessList.Container.Reading.{item_at}
use garbage.RandomAccessList.Iterators.{advance, or_end}

module _ {ℓ} {T : Type ℓ} where
  -- The node of an iterator, found.
  cursor_of :
      (st : Stump T) (pre : List ℕ) (a : ℕ) (post : List ℕ)
      → Holds st (pre ++ a ∷ post)
      → (c : Cursor ℕ) × (locate_in a st.root [] ≡ some c)
        × IsNodeAt st.root (st.before_begin ∷ pre) a (post ++ st.end ∷ []) c
  cursor_of st pre a post h =
      let e = around_deleted st.before_begin pre a post st.end in
      locate_in-IsNodeAt st.root (st.before_begin ∷ pre) a (post ++ st.end ∷ []) (h.tree.order ∙ e)
        (subst Distinct (sym h.tree.order) h.tree.distinct)

  -- The node that a move lands at, by its position among the values.
  landed_item :
      (st : Stump T) (ids : List ℕ) (d : Cursor ℕ) (position : ℕ)
      → Holds st ids
      → root d ≡ st.root
      → length (before d) ≡ suc position
      → position < length ids
      → get_elem? ids position ≡ some d.item
  landed_item st ids d position h same at k =
      item_at st.before_begin ids st.end position (before d) d.item (after d)
        (sym h.tree.order ∙ (ap to_list (sym same) ∙ to_list-cursor d)) at k

  -- In a container with the invariant of selfCheckIfConstructed, an iterator at a value, advanced
  -- by n, is at the value n places later, if the list is that long.
  pub advance-forward :
      (st : Stump T) (pre : List ℕ) (a : ℕ) (post : List ℕ) (n : ℕ)
      → Holds st (pre ++ a ∷ post)
      → n < suc (length post)
      → advance st a (pos n) ≡ get_elem? (pre ++ a ∷ post) (length pre + n)
  unfolding advance
  advance-forward st pre a post n h b =
      let (c, found, at) = cursor_of st pre a post h in
      let counted = HasNodes-size st.root _ h.tree in
      let whole = length-append (pre ++ a ∷ post) (st.end ∷ []) in
      let parts = length-append pre (a ∷ post) in
      let index = ap length at.nodes_before in
      let (d, lands, same, place) =
        go_to-forward c n (subst IsMeasured (sym at.same_root) h.tree.measured)
          (omega (arith, ap real_size at.same_root, counted, h.tree.small))
          (omega (arith, ap real_size at.same_root, counted, whole, parts, index)) in
      let here =
        landed_item st (pre ++ a ∷ post) d (length pre + n) h (same ∙ at.same_root)
          (omega (arith, place, index)) (omega (arith, parts)) in
      ap (λ o. o >>= λ c. some (or_end st (go_to c (pos n)))) found
      ∙ (ap (λ o. some (or_end st o)) lands ∙ sym here)

  -- In a container with the invariant of selfCheckIfConstructed, an iterator at a value, moved
  -- back by n + 1, is at the value n + 1 places earlier, if there is one.
  pub advance-backward :
      (st : Stump T) (pre : List ℕ) (a : ℕ) (post : List ℕ) (n target : ℕ)
      → Holds st (pre ++ a ∷ post)
      → target + (n + 1) ≡ length pre
      → advance st a (negsuc n) ≡ get_elem? (pre ++ a ∷ post) target
  unfolding advance
  advance-backward st pre a post n target h b =
      let (c, found, at) = cursor_of st pre a post h in
      let counted = HasNodes-size st.root _ h.tree in
      let parts = length-append pre (a ∷ post) in
      let index = ap length at.nodes_before in
      let (d, lands, same, place) =
        go_to-backward c n (suc target) (subst IsMeasured (sym at.same_root) h.tree.measured)
          (omega (arith, ap real_size at.same_root, counted, h.tree.small))
          (omega (arith, index)) in
      let here =
        landed_item st (pre ++ a ∷ post) d target h (same ∙ at.same_root) place
          (omega (arith, parts)) in
      ap (λ o. o >>= λ c. some (or_end st (go_to c (negsuc n)))) found
      ∙ (ap (λ o. some (or_end st o)) lands ∙ sym here)
