-- ===== src/RandomAccessList/Stump.antt =====
-- random_access_list.hpp: the state of `avl_tree_stump`. Nodes go by their addresses, so that an
-- iterator is an address and stays one while the tree is rearranged.
pub mod Locate
pub mod Laws
pub mod Deletion
pub mod Ranges
use garbage.Prelude.{
  ptr_eq, update, ◌>>=◌, ℕ, zero, suc, Bool, true, false, ◌||◌, [], ◌∷◌, List, Option, none, some,
  if◌then◌else◌, ◌==◌,
}
use garbage.AvlTree.Nodes.{Tree, leaf, node, left_of, right_of, Parents, Cursor, cursor_at}
use garbage.AvlTree.Walk.{forward}
use garbage.AvlTree.Edit.{new_node, attach_before, detach}

-- `values` is the `_value` storage of each node: `none` is raw memory.
pub record Stump {ℓ} (T : Type ℓ) : Type ℓ where
  pub root : Tree ℕ
  pub before_begin : ℕ
  pub begin : Option ℕ
  pub end : ℕ
  pub values : ℕ → Option T

abbrev pub or_else {ℓ} : {A : Type ℓ} → Option A → Option A → Option A
or_else none o = o
or_else (some a) o = some a

-- What a node address reaches through its links: `none` if no node of the tree has it.
unfoldable pub locate_in : ℕ → Tree ℕ → Parents ℕ → Option (Cursor ℕ)
locate_in a leaf fs = none
locate_in a (node x h s l r) fs =
    let on_right = locate_in a r (right_of x h s l ∷ fs) in
    let on_left = locate_in a l (left_of x h s r ∷ fs) in
    if x == a then some (cursor_at x h s l r fs) else or_else on_left on_right

-- The links of `insert_before`. A NULL `it` is for the first node alone.
unfoldable pub insert_node : Tree ℕ → Option ℕ → ℕ → Option (Tree ℕ)
unfolding locate_in attach_before
insert_node leaf none new = some (new_node new)
insert_node leaf (some a) new = none
insert_node (node x h s l r) none new = none
insert_node (node x h s l r) (some a) new = do
  c ← locate_in a (node x h s l r) []
  some (attach_before c new)

module _ {ℓ} {T : Type ℓ} where
  unfoldable pub insert_before : Stump T → Option ℕ → ℕ → Option (Stump T)
  unfolding insert_node
  insert_before st it new = do
    tree ← insert_node st.root it new
    some (record st { root = tree; begin = if ptr_eq it st.begin then some new else st.begin })

  unfoldable pub reset_invariant : Stump T → Option (Stump T)
  unfolding insert_before
  reset_invariant st = do
    with_end ← insert_before (record st { root = leaf }) none st.end
    with_both ← insert_before with_end (some st.end) st.before_begin
    some (record with_both { begin = some st.end })

  -- The flag is `needDestroyNode`, and `needDestroyValue` with it. A freed node has no value.
  unfoldable pub delete_ : Stump T → Cursor ℕ → Bool → Stump T
  unfolding detach
  delete_ st c destroy = if c.item == st.before_begin || c.item == st.end then st else record st {
    root = detach c;
    values = if destroy then update st.values c.item none else st.values;
  }

  -- The node after the deleted one is returned. Past the last node there is none.
  unfoldable pub delete_and_get_next : Stump T → ℕ → Bool → Option (Stump T × ℕ)
  unfolding locate_in forward delete_
  delete_and_get_next st a destroy = do
    c ← locate_in a st.root []
    next ← forward c
    let st' = delete_ st c destroy
    some (
      record st' { begin = if ptr_eq st.begin (some a) then some next.item else st'.begin },
      next.item,
    )

  -- The loops of `moveNodes(from, to)`, of `erase(first, last)` and of the destructor: they delete
  -- from `current` until `to`, and list what they deleted. `none` also if the fuel runs out.
  unfoldable pub delete_range : ℕ → Bool → Stump T → ℕ → ℕ → Option (Stump T × List ℕ)
  unfolding delete_and_get_next
  delete_range zero destroy st current to = none
  delete_range (suc fuel) destroy st current to = elim (current == to) [
    | true ↦ some (st, [])
    | false ↦ do
      (st', next) ← delete_and_get_next st current destroy
      (st'', nodes) ← delete_range fuel destroy st' next to
      some (st'', current ∷ nodes)
  ]

  -- `moveNodes(from, to)`, without the `ASSERT` of `delete_and_get_next` that a node which stays gives
  -- its value up in no case: the call leaves `needDestroyValue` at its default, which fails it.
  abbrev pub move_nodes : ℕ → Stump T → ℕ → ℕ → Option (Stump T × List ℕ)
  move_nodes fuel = delete_range fuel false

  unfoldable pub destruct_value_and_delete_node_since_begin_to_before_end :
      ℕ → Stump T → Option (Stump T)
  unfolding delete_range
  destruct_value_and_delete_node_since_begin_to_before_end fuel st = do
    first ← st.begin
    (st', nodes) ← delete_range fuel true st first st.end
    some st'
