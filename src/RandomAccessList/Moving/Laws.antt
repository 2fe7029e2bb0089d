-- ===== src/RandomAccessList/Moving/Laws.antt =====
-- random_access_list.hpp: `moveNodes`, `reverse` and `sort` on the sequence of nodes.
use garbage.Prelude.{
  ◌>>=◌, ℕ, ◌+◌, ◌<◌, Bool, Option, map, reverse, size_mod, length-append, Distinct-Perm,
  length-Perm, Perm-reverse, ◌*◌, ◌≤◌, ◌≡◌, refl, sym, subst, ap, ◌∙◌, [], ◌∷◌, ◌++◌, List, some,
  arith, append-nil, NotIn, NotIn-parts, Distinct, Distinct-prefix, length,
}
use mathlib.Core.List.{Perm, tail-eq_of_cons-eq}
use mathlib.Mathlib.Data.List.Basic.{map-reverse_aux}
use mathlib.Core.List.Perm
use garbage.AvlTree.Balance.Caches.{real_size-length}
use garbage.AvlTree.Nodes.{Tree, leaf, node, Cursor, to_list}
use garbage.AvlTree.Vine.{tree_to_vine}
use garbage.AvlTree.Vine.Laws.{IsChain, Unrolls, tree_to_vine-Unrolls, chain_until-append}
use garbage.RandomAccessList.Stump.{Stump}
use garbage.RandomAccessList.Stump.Laws.{all_nodes, Holds}
use garbage.RandomAccessList.Stump.Ranges.{reset_invariant-Holds}
use garbage.RandomAccessList.Container.{insert_nodes_from_list_and_return_first_inserted}
use garbage.RandomAccessList.Container.Insertion.{contents, AllFresh, insert_nodes-InsertsAll}
use garbage.RandomAccessList.Container.RangeInsertion.{returns_first}
use garbage.RandomAccessList.Merge.Laws.{IsSorted}
use garbage.RandomAccessList.Moving.{move_all_nodes, insert_at_begin, reverse_list, sort}

Distinct-last : (xs : List ℕ) (a : ℕ) → Distinct (xs ++ a ∷ []) → NotIn a xs
Distinct-last [] a d = tt
Distinct-last (x ∷ xs) a d =
    ((λ e. (NotIn-parts x xs (a ∷ []) d.0).1.0 (sym e)), Distinct-last xs a d.1)

-- Right of the first node of a chain stand the others.
right_of_first :
    (c : Cursor ℕ) (b : ℕ) (nodes : List ℕ)
    → Unrolls (b ∷ nodes) c
    → IsChain c.right × (to_list c.right ≡ nodes)
right_of_first c b nodes u = go c.left u.chain u.order
  where
    go :
        (l : Tree ℕ)
        → IsChain (node c.item c.height c.size l c.right)
        → to_list (node c.item c.height c.size l c.right) ≡ b ∷ nodes
        → IsChain c.right × (to_list c.right ≡ nodes)
    go leaf k o = (k, tail-eq_of_cons-eq o)
    go (node x h s l r) k o = absurd k

unroll_any :
    (fuel : ℕ) (t : Tree ℕ) (b : ℕ) (nodes : List ℕ)
    → to_list t ≡ b ∷ nodes
    → 2 * length (b ∷ nodes) ≤ fuel
    → (c : Cursor ℕ) × (tree_to_vine fuel t ≡ some c) × Unrolls (b ∷ nodes) c
unroll_any fuel leaf b nodes o n = cc o
unroll_any fuel (node x h s l r) b nodes o n =
    let (c, runs, u) =
      tree_to_vine-Unrolls fuel x h s l r
        (omega (arith, n, ap length o, real_size-length (node x h s l r))) in
    (c, runs, record { chain = u.chain; order = u.order ∙ o })

module _ {ℓ} {T : Type ℓ} where
  pub record MovesAll (st : Stump T) (ids : List ℕ) (fuel : ℕ) (st' : Stump T) : Type ℓ where
    pub runs : move_all_nodes fuel st ≡ some (st', ids)
    pub holds : Holds st' []
    pub values : st'.values ≡ st.values
    pub end : st'.end ≡ st.end
    pub before_begin : st'.before_begin ≡ st.before_begin

  -- In a container with the invariant of selfCheckIfConstructed, with two rounds of fuel for each
  -- node of the tree: moveNodes, which unrolls the tree into a chain, ends, lists exactly the
  -- nodes of the container in their order, and leaves an empty container with the invariant and
  -- all values in place.
  pub move_all_nodes-MovesAll :
      (fuel : ℕ) (st : Stump T) (ids : List ℕ)
      → Holds st ids
      → 2 * length (all_nodes st ids) ≤ fuel
      → (st' : Stump T) × MovesAll st ids fuel st'
  unfolding move_all_nodes
  move_all_nodes-MovesAll fuel st ids h b =
      let (c, unrolled, u) = unroll_any fuel st.root _ _ h.tree.order b in
      let (chain, order) = right_of_first c st.before_begin (ids ++ st.end ∷ []) u in
      let walked =
        chain_until-append c.right ids st.end [] chain order
          (Distinct-last ids st.end h.tree.distinct.1) in
      let (st', reset, holds, values, same_end, same_begin) =
        reset_invariant-Holds st
          (NotIn-parts st.before_begin ids (st.end ∷ []) h.tree.distinct.0).1.0 in
      (
        st',
        record {
          runs = rw (unrolled, walked, reset, move_all_nodes) refl;
          holds = holds;
          values = values;
          end = same_end;
          before_begin = same_begin;
        },
      )

-- What a list of nodes must be to go between the two gap nodes.
abbrev pub Spread : ℕ → ℕ → List ℕ → Type 0
Spread b e nodes = Distinct (b ∷ (nodes ++ e ∷ []))

pub Spread-Perm : (b e : ℕ) (xs ys : List ℕ) → Perm xs ys → Spread b e xs → Spread b e ys
Spread-Perm b e xs ys p d = Distinct-Perm _ _ (Perm.cons b (Perm.append_right (e ∷ []) p)) d

module _ {ℓ} {T : Type ℓ} where
  pub AllFresh-empty :
      (st : Stump T) (nodes : List ℕ) → Spread st.before_begin st.end nodes → AllFresh st [] nodes
  AllFresh-empty st [] d = tt
  AllFresh-empty st (n ∷ ns) d = (
    ((λ e. d.0.0 (sym e)), (NotIn-parts n ns (st.end ∷ []) d.1.0).1.0, tt),
    AllFresh-empty st ns (d.0.1, d.1.1),
  )

  pub insert_at_begin-Holds :
      (st : Stump T) (nodes : List ℕ)
      → Holds st []
      → Spread st.before_begin st.end nodes
      → 2 + length nodes < size_mod
      → (st' : Stump T) × (insert_at_begin st nodes ≡ some st')
        × Holds st' nodes
        × (st'.values ≡ st.values)
  unfolding insert_at_begin
  insert_at_begin-Holds st nodes h d b =
      let (st', r) =
        insert_nodes-InsertsAll nodes st [] [] h (Distinct-prefix nodes (st.end ∷ []) d.1)
          (AllFresh-empty st nodes d) b in
      let run = returns_first st st' nodes [] st.end r.runs in
      (
        st',
        ap
              (λ o. o >>= λ a.
                insert_nodes_from_list_and_return_first_inserted st nodes a >>= λ p. some p.0)
              h.begins
            ∙ ap (λ o. o >>= λ p. some p.0) run,
        subst (Holds st') (append-nil nodes) r.holds,
        r.values,
      )

  -- The nodes of a container go back in any order.
  pub rearranged-Holds :
      (fuel : ℕ) (st st' : Stump T) (ids nodes : List ℕ)
      → Holds st ids
      → MovesAll st ids fuel st'
      → Perm ids nodes
      → (st'' : Stump T) × (insert_at_begin st' nodes ≡ some st'')
        × Holds st'' nodes
        × (st''.values ≡ st.values)
  rearranged-Holds fuel st st' ids nodes h m p =
      let (st'', runs, holds, values) =
        insert_at_begin-Holds st' nodes m.holds
          (subst (λ e. Spread st'.before_begin e nodes) (sym m.end)
            (subst (λ b. Spread b st.end nodes) (sym m.before_begin)
              (Spread-Perm st.before_begin st.end ids nodes p h.tree.distinct)))
          (omega (arith, h.tree.small, length-append ids (st.end ∷ []), length-Perm ids nodes p)) in
      (st'', runs, holds, values ∙ m.values)

  -- In a container with the invariant of selfCheckIfConstructed, with two rounds of fuel for each
  -- node of the tree: reverse ends, reverses the sequence of values, and keeps the invariant.
  pub reverse_list_lem :
      (fuel : ℕ) (st : Stump T) (ids : List ℕ)
      → Holds st ids
      → 2 * length (all_nodes st ids) ≤ fuel
      → (st' : Stump T) × (reverse_list fuel st ≡ some st')
        × Holds st' (reverse ids)
        × (contents st' (reverse ids) ≡ reverse (contents st ids))
  unfolding reverse_list
  reverse_list_lem fuel st ids h b =
      let (emptied, m) = move_all_nodes-MovesAll fuel st ids h b in
      let (st', runs, holds, values) =
        rearranged-Holds fuel st emptied ids (reverse ids) h m (Perm-reverse ids) in
      (
        st',
        rw (m.runs, runs, reverse_list) refl,
        holds,
        ap (λ v. map v (reverse ids)) values ∙ map-reverse_aux st.values ids [],
      )

  -- What `sort` of the intrusive list does, by its documentation: it orders the nodes that it has.
  pub record IsSort (comp : Option T → Option T → Bool)
      (intrusive_sort : (ℕ → Option T) → List ℕ → List ℕ) : Type ℓ where
    pub permutes :
        (values : ℕ → Option T) (nodes : List ℕ) → Perm nodes (intrusive_sort values nodes)
    pub sorts :
        (values : ℕ → Option T) (nodes : List ℕ)
        → IsSorted comp (map values (intrusive_sort values nodes))

  -- With a list sort that orders and permutes the nodes: in a container with the invariant of
  -- selfCheckIfConstructed, with two rounds of fuel for each node of the tree, sort ends with
  -- exactly the values of before in order, and keeps the invariant.
  pub sort_lem :
      (comp : Option T → Option T → Bool) (intrusive_sort : (ℕ → Option T) → List ℕ → List ℕ)
      (fuel : ℕ) (st : Stump T) (ids : List ℕ)
      → IsSort comp intrusive_sort
      → Holds st ids
      → 2 * length (all_nodes st ids) ≤ fuel
      → (st' : Stump T) × (sorted : List ℕ) × (sort intrusive_sort fuel st ≡ some st')
        × Holds st' sorted
        × Perm ids sorted
        × IsSorted comp (contents st' sorted)
        × Perm (contents st ids) (contents st' sorted)
  unfolding sort
  sort_lem comp intrusive_sort fuel st ids s h b =
      let (emptied, m) = move_all_nodes-MovesAll fuel st ids h b in
      let sorted = intrusive_sort emptied.values ids in
      let (st', runs, holds, values) =
        rearranged-Holds fuel st emptied ids sorted h m (s.permutes emptied.values ids) in
      let same = values ∙ sym m.values in
      (
        st',
        sorted,
        rw (m.runs, runs, sort) refl,
        holds,
        s.permutes emptied.values ids,
        subst (λ v. IsSorted comp (map v sorted)) (sym same) (s.sorts emptied.values ids),
        subst (λ v. Perm (contents st ids) (map v sorted)) (sym values)
            (Perm.map st.values (s.permutes emptied.values ids)),
      )
