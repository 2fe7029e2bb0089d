-- ===== src/RandomAccessList/Container/Reading.antt =====
-- random_access_list.hpp: `size`, `operator[]` and `at`.
use garbage.Prelude.{
  ◌>>=◌, ℕ, zero, suc, ◌<◌, ◌≡◌, refl, sym, ap, ◌∙◌, true, [], ◌∷◌, ◌++◌, List, some, arith, length,
  length-append, map, get_elem?, get_elem?-append, add_size, ltb,
}
use garbage.AvlTree.Nodes.{to_list, before, after, to_list-cursor}
use garbage.AvlTree.Balance.Caches.{size-eq}
use garbage.AvlTree.Index.Laws.{get_by_index-Finds}
use garbage.RandomAccessList.Stump.{Stump}
use garbage.RandomAccessList.Stump.Laws.{Holds, HasNodes-size}
use garbage.RandomAccessList.Container.{list_size, subscript, at, out_of_range}
use garbage.RandomAccessList.Container.Insertion.{contents}

pub length-map {ℓ κ} :
    {A : Type ℓ} {B : Type κ} (f : A → B) (xs : List A) → length (map f xs) ≡ length xs
length-map f [] = refl
length-map f (x ∷ xs) = ap suc (length-map f xs)

get_elem?-map {ℓ κ} :
    {A : Type ℓ} {B : Type κ} (f : A → B) (xs : List A) (i : ℕ) {a : A}
    → get_elem? xs i ≡ some a
    → get_elem? (map f xs) i ≡ some (f a)
get_elem?-map f [] i e = cc
get_elem?-map f (x ∷ xs) zero e = cc e
get_elem?-map f (x ∷ xs) (suc i) e = get_elem?-map f xs i e

get_elem?-middle {ℓ} :
    {A : Type ℓ} (xs : List A) (a : A) (ys : List A) → get_elem? (xs ++ a ∷ ys) (length xs) ≡ some a
get_elem?-middle [] a ys = refl
get_elem?-middle (x ∷ xs) a ys = get_elem?-middle xs a ys

-- The node at `pos + 1` of the tree is the node of the value at `pos`.
pub item_at :
    (b : ℕ) (ids : List ℕ) (e pos : ℕ) (xs : List ℕ) (a : ℕ) (ys : List ℕ)
    → b ∷ (ids ++ e ∷ []) ≡ xs ++ a ∷ ys
    → length xs ≡ suc pos
    → pos < length ids
    → get_elem? ids pos ≡ some a
item_at b ids e pos xs a ys same n k =
    let inside : ltb pos (length ids) ≡ true = ground arith in
    sym (get_elem?-append ids (e ∷ []) pos ∙ rw inside refl)
    ∙ (ap (λ u. get_elem? u (suc pos)) same
        ∙ (ap (get_elem? (xs ++ a ∷ ys)) (sym n) ∙ get_elem?-middle xs a ys))

module _ {ℓ} {T : Type ℓ} where
  -- `size` counts the values, without the two gap nodes.
  pub list_size-length :
      (st : Stump T) (ids : List ℕ) → Holds st ids → list_size st ≡ length (contents st ids)
  unfolding list_size
  list_size-length st ids h = omega (
    arith,
    size-eq st.root h.tree.measured,
    HasNodes-size st.root _ h.tree,
    h.tree.small,
    length-map st.values ids,
    length-append ids (st.end ∷ []),
  )

  -- In a container with the invariant of selfCheckIfConstructed, operator[] at a position below
  -- the size reads the value at that position of the sequence of values.
  pub subscript-get_elem :
      (st : Stump T) (ids : List ℕ) (pos : ℕ)
      → Holds st ids
      → pos < length ids
      → some (subscript st pos) ≡ get_elem? (contents st ids) pos
  unfolding subscript
  subscript-get_elem st ids pos h b =
      let counted = HasNodes-size st.root _ h.tree in
      let gaps = length-append ids (st.end ∷ []) in
      let (c, found, same, position) =
        get_by_index-Finds st.root (add_size pos 1) h.tree.measured
          (omega (arith, counted, h.tree.small)) (omega (arith, counted, gaps, h.tree.small)) in
      let here =
        item_at st.before_begin ids st.end pos (before c) c.item (after c)
          (sym h.tree.order ∙ (ap to_list (sym same) ∙ to_list-cursor c))
          (omega (arith, position, counted, gaps, h.tree.small)) b in
      ap (λ o. some (o >>= λ d. st.values d.item)) found
      ∙ sym (get_elem?-map st.values ids pos here)

  -- In a container with the invariant of selfCheckIfConstructed, at throws out_of_range for every
  -- position below the size.
  pub at-out_of_range :
      (st : Stump T) (ids : List ℕ) (pos : ℕ)
      → Holds st ids
      → pos < length ids
      → at st pos ≡ some out_of_range
  unfolding at
  at-out_of_range st ids pos h b =
      let inside : ltb pos (list_size st) ≡ true =
        ground (arith, list_size-length st ids h, length-map st.values ids) in
      rw inside refl
