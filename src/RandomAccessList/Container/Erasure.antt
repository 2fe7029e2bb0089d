-- ===== src/RandomAccessList/Container/Erasure.antt =====
-- random_access_list.hpp: what `erase`, `clear` and the pops do to the sequence of values.
use garbage.Prelude.{
  ◌>>=◌, ℕ, ◌<◌, ◌≡◌, refl, sym, subst, ap, ap₂, ◌∙◌, true, [], ◌∷◌, ◌++◌, List, Option, none, some,
  arith, append-nil, NotIn, NotIn-parts, Distinct, Distinct-middle, Distinct-remove,
  Distinct-prefix, Distinct-suffix, ◌≢◌, length, map,
}
use mathlib.Core.List.{map-append}
use garbage.AvlTree.Nodes.{Cursor, before}
use garbage.AvlTree.Walk.{backward}
use garbage.AvlTree.Walk.Laws.{IsPrevious, backward-IsPrevious}
use garbage.RandomAccessList.Stump.{Stump}
use garbage.RandomAccessList.Stump.Locate.{locate_in-IsNodeAt}
use garbage.RandomAccessList.Stump.Laws.{first_or, Holds}
use garbage.RandomAccessList.Stump.Deletion.{delete_and_get_next-Deletes, around_deleted}
use garbage.RandomAccessList.Stump.Ranges.{delete_range-DeletesRange}
use garbage.RandomAccessList.Container.{erase, erase_range, pop_front, pop_back}
use garbage.RandomAccessList.Container.Insertion.{contents, map-update}

last_of : ℕ → List ℕ → ℕ
last_of d [] = d
last_of d (x ∷ xs) = last_of x xs

last_of-append : (d : ℕ) (xs : List ℕ) (a : ℕ) → last_of d (xs ++ a ∷ []) ≡ a
unfolding last_of
last_of-append d [] a = refl
last_of-append d (x ∷ xs) a = last_of-append x xs a

not_empty : (xs : List ℕ) (a : ℕ) → xs ++ a ∷ [] ≢ []
not_empty [] a e = cc e
not_empty (x ∷ xs) a e = cc e

previous_node :
    (c : Cursor ℕ) (xs : List ℕ) (a : ℕ) (o : Option (Cursor ℕ))
    → IsPrevious c o
    → before c ≡ xs ++ a ∷ []
    → (d : Cursor ℕ) × (o ≡ some d) × (d.item ≡ a)
previous_node c xs a none k e = absurd (not_empty xs a (sym e ∙ k))
previous_node c xs a (some d) k e = (
  d,
  refl,
  sym (last_of-append 0 (before d) d.item) ∙ (ap (last_of 0) (sym k.1 ∙ e) ∙ last_of-append 0 xs a),
)

-- No address of the second list stands in the first.
abbrev AllNotIn : List ℕ → List ℕ → Type 0
AllNotIn mid [] = Unit
AllNotIn mid (x ∷ xs) = NotIn x mid × AllNotIn mid xs

AllNotIn-before : (pre mid post : List ℕ) → Distinct (pre ++ (mid ++ post)) → AllNotIn mid pre
AllNotIn-before [] mid post d = tt
AllNotIn-before (x ∷ pre) mid post d = (
  (NotIn-parts x mid post (NotIn-parts x pre (mid ++ post) d.0).1).0,
  AllNotIn-before pre mid post d.1,
)

AllNotIn-after : (mid post : List ℕ) → Distinct (mid ++ post) → AllNotIn mid post
AllNotIn-after mid [] d = tt
AllNotIn-after mid (x ∷ post) d =
    ((Distinct-middle mid x post d).0, AllNotIn-after mid post (Distinct-remove mid x post d))

map-kept {ℓ} :
    {A : Type ℓ} (f g : ℕ → A) (mid xs : List ℕ)
    → ((k : ℕ) → NotIn k mid → f k ≡ g k)
    → AllNotIn mid xs
    → map f xs ≡ map g xs
map-kept f g mid [] k n = refl
map-kept f g mid (x ∷ xs) k n = ap₂ ◌∷◌ (k x n.0) (map-kept f g mid xs k n.1)

module _ {ℓ} {T : Type ℓ} where
  -- A node of a container stands once in it.
  pub node_apart :
      (st : Stump T) (pre : List ℕ) (a : ℕ) (post : List ℕ)
      → Holds st (pre ++ a ∷ post)
      → NotIn a pre × NotIn a post
  node_apart st pre a post h =
      let whole = around_deleted st.before_begin pre a post st.end in
      let d =
        Distinct-middle (st.before_begin ∷ pre) a (post ++ st.end ∷ [])
          (subst Distinct whole h.tree.distinct) in
      (d.0.1, (NotIn-parts a post (st.end ∷ []) d.1).0)

  -- In a container with the invariant of selfCheckIfConstructed, erase takes one node out,
  -- destroys its value, returns the iterator after it, and keeps all others with their values and
  -- the invariant.
  pub erase_lem :
      (st : Stump T) (pre : List ℕ) (a : ℕ) (post : List ℕ)
      → Holds st (pre ++ a ∷ post)
      → (st' : Stump T) × (erase st a ≡ some (st', first_or post st.end))
        × Holds st' (pre ++ post)
        × (contents st' (pre ++ post) ≡ contents st pre ++ contents st post)
        × (st'.values a ≡ none)
  unfolding erase
  erase_lem st pre a post h =
      let (st', d) = delete_and_get_next-Deletes st pre a post true h in
      let apart = node_apart st pre a post h in
      (
        st',
        d.runs,
        d.holds,
        ap (λ v. map v (pre ++ post)) d.values
            ∙ (map-append _ pre post
                ∙ ap₂ ◌++◌ (map-update st.values a none pre apart.0)
                    (map-update st.values a none post apart.1)),
        ap (λ v. v a) d.values ∙ ground arith,
      )

  -- `pop_front` takes out the first value.
  pub pop_front_lem :
      (st : Stump T) (a : ℕ) (post : List ℕ)
      → Holds st (a ∷ post)
      → (st' : Stump T) × (pop_front st ≡ some (st', first_or post st.end))
        × Holds st' post
        × (contents st' post ≡ contents st post)
  unfolding pop_front
  pop_front_lem st a post h =
      let (st', runs, holds, same, gone) = erase_lem st [] a post h in
      (st', ap (λ o. o >>= λ f. erase st f) h.begins ∙ runs, holds, same)

  -- In a container with the invariant and a value, pop_back, which goes one node back from the
  -- end, takes out the last value, keeps the others and the invariant.
  pub pop_back_lem :
      (st : Stump T) (pre : List ℕ) (a : ℕ)
      → Holds st (pre ++ a ∷ [])
      → (st' : Stump T) × (pop_back st ≡ some (st', st.end))
        × Holds st' pre
        × (contents st' pre ≡ contents st pre)
  unfolding pop_back
  pop_back_lem st pre a h =
      let (c, found, at) =
        locate_in-IsNodeAt st.root (st.before_begin ∷ (pre ++ a ∷ [])) st.end [] h.tree.order
          (subst Distinct (sym h.tree.order) h.tree.distinct) in
      let (d, back, item) =
        previous_node c (st.before_begin ∷ pre) a (backward c) (backward-IsPrevious c)
          at.nodes_before in
      let (st', runs, holds, same, gone) = erase_lem st pre a [] h in
      (
        st',
        rw (found, back, item) runs,
        subst (Holds st') (append-nil pre) holds,
        ap (contents st') (sym (append-nil pre)) ∙ (same ∙ append-nil (contents st pre)),
      )

  -- In a container with the invariant of selfCheckIfConstructed, with more fuel than nodes in the
  -- range: erase(first, last) takes out exactly the nodes from first to before last, in order,
  -- and keeps every other node, its value and the invariant.
  pub erase_range_lem :
      (fuel : ℕ) (st : Stump T) (pre mid post : List ℕ)
      → Holds st (pre ++ (mid ++ post))
      → length mid < fuel
      → (st' : Stump T) × (erase_range fuel st
            (first_or (mid ++ post) st.end)
            (first_or post st.end)
          ≡ some (st', mid))
        × Holds st' (pre ++ post)
        × (contents st' (pre ++ post) ≡ contents st pre ++ contents st post)
  unfolding erase_range
  erase_range_lem fuel st pre mid post h b =
      let (st', d) = delete_range-DeletesRange fuel st pre mid post true h b in
      let nodes = Distinct-prefix (pre ++ (mid ++ post)) (st.end ∷ []) h.tree.distinct.1 in
      let before_mid = AllNotIn-before pre mid post nodes in
      let after_mid = AllNotIn-after mid post (Distinct-suffix pre (mid ++ post) nodes) in
      (
        st',
        d.runs,
        d.holds,
        map-append _ pre post
            ∙ ap₂ ◌++◌ (map-kept st'.values st.values mid pre d.kept before_mid)
                (map-kept st'.values st.values mid post d.kept after_mid),
      )
