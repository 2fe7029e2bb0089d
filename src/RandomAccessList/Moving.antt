-- ===== src/RandomAccessList/Moving.antt =====
-- random_access_list.hpp: `moveNodes` of a whole tree, and the operations of the container that
-- take nodes out into an intrusive list and put them back: `reverse`, `sort`, `splice`, `merge`.
-- Two containers are two stumps. A node carries its `_value` storage with it.
pub mod Laws
pub mod Splicing
pub mod Merging
pub mod Tests
use garbage.Prelude.{
  ◌>>=◌, ℕ, Bool, true, false, [], ◌∷◌, List, Option, none, some, reverse, update,
}
use garbage.AvlTree.Vine.{tree_to_vine, chain_until}
use garbage.RandomAccessList.Stump.{Stump, reset_invariant, move_nodes}
use garbage.RandomAccessList.Container.{insert_nodes_from_list_and_return_first_inserted}
use garbage.RandomAccessList.Merge.{merge_nodes}

module _ {ℓ} {T : Type ℓ} where
  -- `moveNodes()`: the walk starts right of the top of the chain, which is the gap node before the
  -- first.
  unfoldable pub move_all_nodes : ℕ → Stump T → Option (Stump T × List ℕ)
  unfolding tree_to_vine chain_until reset_invariant
  move_all_nodes fuel st = do
    top ← tree_to_vine fuel st.root
    nodes ← chain_until top.right st.end
    st' ← reset_invariant st
    some (st', nodes)

  -- `insertNodesFromListAndReturnFirstInserted(nodes, this->begin())`
  unfoldable pub insert_at_begin : Stump T → List ℕ → Option (Stump T)
  unfolding insert_nodes_from_list_and_return_first_inserted
  insert_at_begin st nodes = do
    first ← st.begin
    (st', inserted) ← insert_nodes_from_list_and_return_first_inserted st nodes first
    some st'

  unfoldable pub reverse_list : ℕ → Stump T → Option (Stump T)
  unfolding move_all_nodes insert_at_begin
  reverse_list fuel st = do
    (emptied, nodes) ← move_all_nodes fuel st
    insert_at_begin emptied (reverse nodes)

  -- `intrusive_sort` is `sort(comp)` of the intrusive list, whose nodes compare by their values.
  unfoldable pub sort : ((ℕ → Option T) → List ℕ → List ℕ) → ℕ → Stump T → Option (Stump T)
  unfolding move_all_nodes insert_at_begin
  sort intrusive_sort fuel st = do
    (emptied, nodes) ← move_all_nodes fuel st
    insert_at_begin emptied (intrusive_sort emptied.values nodes)

  -- The storage of the nodes that come from another container.
  abbrev pub carry : (ℕ → Option T) → (ℕ → Option T) → List ℕ → ℕ → Option T
  carry values from [] = values
  carry values from (n ∷ nodes) = update (carry values from nodes) n (from n)

  abbrev pub adopt : Stump T → Stump T → List ℕ → Stump T
  adopt st other nodes = record st { values = carry st.values other.values nodes }

  -- `splice_private(pos, other)`. The two containers of the result are this one and the other.
  unfoldable pub splice_all : ℕ → Stump T → ℕ → Stump T → Option (Stump T × Stump T)
  unfolding move_all_nodes insert_nodes_from_list_and_return_first_inserted
  splice_all fuel st pos other = do
    (other', nodes) ← move_all_nodes fuel other
    (st', first) ← insert_nodes_from_list_and_return_first_inserted (adopt st other nodes) nodes pos
    some (st', other')

  -- `splice_private(pos, other, first, last)`
  unfoldable pub splice_range : ℕ → Stump T → ℕ → Stump T → ℕ → ℕ → Option (Stump T × Stump T)
  unfolding insert_nodes_from_list_and_return_first_inserted
  splice_range fuel st pos other first last = do
    (other', nodes) ← move_nodes fuel other first last
    (st', inserted) ←
        insert_nodes_from_list_and_return_first_inserted (adopt st other nodes) nodes pos
    some (st', other')

  -- `splice_private(pos, other, it)`: the range that it hands on ends at `other.end()`.
  unfoldable pub splice_from : ℕ → Stump T → ℕ → Stump T → ℕ → Option (Stump T × Stump T)
  unfolding splice_range
  splice_from fuel st pos other it = splice_range fuel st pos other it other.end

  -- `merge_private`. The flag is `this==&other`. The comparator reads the values of the nodes.
  unfoldable pub merge :
      (Option T → Option T → Bool) → ℕ → Bool → Stump T → Stump T → Option (Stump T × Stump T)
  unfolding move_all_nodes insert_at_begin merge_nodes
  merge comp fuel true st other = some (st, other)
  merge comp fuel false st other = do
    (st', nodes) ← move_all_nodes fuel st
    (other', other_nodes) ← move_all_nodes fuel other
    let both = adopt st' other' other_nodes
    merged ←
        insert_at_begin both
          (merge_nodes (λ a b. comp (both.values a) (both.values b)) nodes other_nodes)
    some (merged, other')
