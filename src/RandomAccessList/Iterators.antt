-- ===== src/RandomAccessList/Iterators.antt =====
-- random_access_list.hpp: `TRandomAccessIterator` of one collection, which is the address `_current`.
pub mod Laws
use garbage.Prelude.{[], ◌>>=◌, ℕ, Option, none, some, ℤ}
use garbage.AvlTree.Nodes.{Cursor}
use garbage.AvlTree.Walk.{forward, backward}
use garbage.AvlTree.Index.{go_to, distance}
use garbage.RandomAccessList.Stump.{Stump, locate_in}

module _ {ℓ} {T : Type ℓ} where
  -- What the moves do with the result of the tree: NULL becomes the end.
  abbrev pub or_end : Stump T → Option (Cursor ℕ) → ℕ
  or_end st none = st.end
  or_end st (some c) = c.item

  unfoldable pub dereference : Stump T → ℕ → Option T
  dereference st current = st.values current

  unfoldable pub increment : Stump T → ℕ → Option ℕ
  unfolding locate_in forward
  increment st current = do c ← locate_in current st.root []; some (or_end st (forward c))

  unfoldable pub decrement : Stump T → ℕ → Option ℕ
  unfolding locate_in backward
  decrement st current = do c ← locate_in current st.root []; some (or_end st (backward c))

  unfoldable pub advance : Stump T → ℕ → ℤ → Option ℕ
  unfolding locate_in go_to
  advance st current iterator_increment = do
    c ← locate_in current st.root []
    some (or_end st (go_to c iterator_increment))

  unfoldable pub distance_to : Stump T → ℕ → ℕ → Option ℕ
  unfolding locate_in distance
  distance_to st current that = do
    c ← locate_in current st.root []
    d ← locate_in that st.root []
    some (distance c d)
