-- ===== src/RandomAccessList/Container.antt =====
-- random_access_list.hpp: the class `random_access_list`. Its state is that of its
-- `_implementation`, and an iterator is the address of its node. The allocator and the element
-- constructors are the caller's: a new node comes with its address, and with its value or `none`
-- for a constructor that throws.
pub mod Insertion
pub mod RangeInsertion
pub mod Erasure
pub mod Reading
use garbage.Prelude.{
  Outcome, returns, throws, update, ◌>>=◌, ℕ, zero, suc, ◌-◌, Bool, true, false, [], ◌∷◌, List,
  Option, none, some, if◌then◌else◌, ◌==◌, ltb, add_size, sub_size,
}
use garbage.AvlTree.Balance.{size}
use garbage.AvlTree.Walk.{backward}
use garbage.AvlTree.Index.{get_by_index}
use garbage.RandomAccessList.Stump.{
  Stump, locate_in, insert_before, delete_and_get_next, delete_range,
  destruct_value_and_delete_node_since_begin_to_before_end,
}

-- `std::out_of_range`
pub data Access {ℓ} (R : Type ℓ) : Type ℓ where
  reads : R → Access R
  out_of_range : Access R

module _ {ℓ} {T : Type ℓ} where
  -- `emplace` at `it`: `makeNode`, then `insertNode`. It returns the new iterator.
  unfoldable pub emplace : Stump T → ℕ → ℕ × Option T → Option (Outcome (Stump T) ℕ)
  unfolding insert_before
  emplace st it (new, none) = some (throws st)
  emplace st it (new, some v) = do
    st' ← insert_before (record st { values = update st.values new (some v) }) (some it) new
    some (returns st' new)

  unfoldable pub emplace_back : Stump T → ℕ × Option T → Option (Outcome (Stump T) ℕ)
  unfolding emplace
  emplace_back st made = emplace st st.end made

  unfoldable pub emplace_front : Stump T → ℕ × Option T → Option (Outcome (Stump T) ℕ)
  unfolding emplace
  emplace_front st made = do first ← st.begin; emplace st first made

  -- The loop of `insertNodesFromListAndReturnFirstInserted`: every node goes in at `pos`.
  unfoldable pub insert_nodes : Stump T → List ℕ → ℕ → Option (Stump T)
  unfolding insert_before
  insert_nodes st [] pos = some st
  insert_nodes st (n ∷ nodes) pos = do
    st' ← insert_before st (some pos) n
    insert_nodes st' nodes pos

  unfoldable pub insert_nodes_from_list_and_return_first_inserted :
      Stump T → List ℕ → ℕ → Option (Stump T × ℕ)
  unfolding insert_nodes
  insert_nodes_from_list_and_return_first_inserted st [] pos = some (st, pos)
  insert_nodes_from_list_and_return_first_inserted st (n ∷ nodes) pos = do
    st' ← insert_nodes st (n ∷ nodes) pos
    some (st', n)

  -- The loop that fills `constructedNodesForStrongExeptionSafety`. `none`: a constructor threw, and
  -- the nodes made so far are disposed of.
  unfoldable pub make_nodes :
      (ℕ → Option T) → List (ℕ × Option T) → Option ((ℕ → Option T) × List ℕ)
  make_nodes values [] = some (values, [])
  make_nodes values ((a, none) ∷ made) = none
  make_nodes values ((a, some v) ∷ made) = do
    (values', nodes) ← make_nodes (update values a (some v)) made
    some (values', a ∷ nodes)

  -- `insert(pos, first, last)`, and `insert(pos, count, value)` for a range of one value.
  unfoldable pub insert : Stump T → ℕ → List (ℕ × Option T) → Option (Outcome (Stump T) ℕ)
  unfolding make_nodes insert_nodes_from_list_and_return_first_inserted
  insert st pos made = elim (make_nodes st.values made) [
    | none ↦ some (throws st)
    | some (values, nodes) ↦ do
      (st', first) ←
          insert_nodes_from_list_and_return_first_inserted (record st { values = values }) nodes pos
      some (returns st' first)
  ]

  unfoldable pub erase : Stump T → ℕ → Option (Stump T × ℕ)
  unfolding delete_and_get_next
  erase st pos = delete_and_get_next st pos true

  -- `erase(first, last)`
  unfoldable pub erase_range : ℕ → Stump T → ℕ → ℕ → Option (Stump T × List ℕ)
  unfolding delete_range
  erase_range fuel st first last = delete_range fuel true st first last

  abbrev pub clear : ℕ → Stump T → Option (Stump T)
  clear = destruct_value_and_delete_node_since_begin_to_before_end

  unfoldable pub pop_front : Stump T → Option (Stump T × ℕ)
  unfolding erase
  pop_front st = do first ← st.begin; erase st first

  unfoldable pub pop_back : Stump T → Option (Stump T × ℕ)
  unfolding erase locate_in backward
  pop_back st = do e ← locate_in st.end st.root []; last ← backward e; erase st last.item

  -- The two gap nodes are not counted.
  unfoldable pub list_size : Stump T → ℕ
  unfolding size
  list_size st = sub_size (size st.root) 2

  abbrev pub empty : Stump T → Bool
  empty st = list_size st == 0

  -- `operator[]`. A node with no value reads as `none`.
  unfoldable pub subscript : Stump T → ℕ → Option T
  unfolding get_by_index
  subscript st pos = do c ← get_by_index st.root (add_size pos 1); st.values c.item

  -- The test is the source's: it throws for the positions of the container.
  unfoldable pub at : Stump T → ℕ → Option (Access T)
  unfolding subscript list_size
  at st pos =
      if ltb pos (list_size st)
      then some out_of_range
      else (do v ← subscript st pos; some (reads v))
