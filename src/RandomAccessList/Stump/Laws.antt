-- ===== src/RandomAccessList/Stump/Laws.antt =====
-- What `insert_before`, `resetInvariant` and `delete_and_get_next` do to the sequence of nodes.
use garbage.Prelude.{
  ptr_eq, ℕ, ◌+◌, ◌<◌, ◌≡◌, ◌≢◌, refl, sym, subst, ap, ap₂, ◌∙◌, false, [], ◌∷◌, ◌++◌, List, Option,
  none, some, arith, append_assoc, NotIn, NotIn-parts, Distinct, Distinct-remove, Distinct-insert,
  length, length-append, size_mod, ◌==◌, ==_iff, if◌then◌else◌,
}
use mathlib.Core.List.{head-eq_of_cons-eq}
use garbage.AvlTree.Nodes.{Tree, leaf, node, Cursor, to_list}
use garbage.AvlTree.Balance.Caches.{IsMeasured, real_size, real_size-length}
use garbage.AvlTree.Walk.{forward}
use garbage.AvlTree.Walk.Laws.{IsNext, forward-IsNext}
use garbage.AvlTree.Edit.{attach_before, detach}
use garbage.AvlTree.Edit.Order.{to_list-attach_before, to_list-detach}
use garbage.AvlTree.Edit.Caches.{attach_before-IsMeasured, detach-IsMeasured}
use garbage.RandomAccessList.Stump.{Stump, insert_node, insert_before}
use garbage.RandomAccessList.Stump.Locate.{IsNodeAt, locate_in-IsNodeAt}

-- The first address of a list, or what stands after it.
abbrev pub first_or : List ℕ → ℕ → ℕ
first_or [] e = e
first_or (x ∷ xs) e = x

-- The tree has these nodes in this order, with real heights and sizes.
pub record HasNodes (t : Tree ℕ) (nodes : List ℕ) : Type 0 where
  pub order : to_list t ≡ nodes
  pub distinct : Distinct nodes
  pub measured : IsMeasured t
  pub small : length nodes < size_mod

module _ {ℓ} {T : Type ℓ} where
  -- All nodes of a container that holds the nodes `ids`: the two gap nodes stand around them.
  abbrev pub all_nodes : Stump T → List ℕ → List ℕ
  all_nodes st ids = st.before_begin ∷ (ids ++ st.end ∷ [])

  -- The checks of `selfCheckIfConstructed`, with the nodes that they find.
  pub record Holds (st : Stump T) (ids : List ℕ) : Type ℓ where
    pub tree : HasNodes st.root (all_nodes st ids)
    pub begins : st.begin ≡ some (first_or ids st.end)

pub HasNodes-size : (t : Tree ℕ) (nodes : List ℕ) → HasNodes t nodes → real_size t ≡ length nodes
HasNodes-size t nodes h = real_size-length t ∙ ap length h.order

-- One more node before `a`.
pub insert_node-HasNodes :
    (t : Tree ℕ) (xs : List ℕ) (a : ℕ) (ys : List ℕ) (new : ℕ)
    → HasNodes t (xs ++ a ∷ ys)
    → NotIn new (xs ++ a ∷ ys)
    → length (xs ++ a ∷ ys) + 1 < size_mod
    → (u : Tree ℕ) × (insert_node t (some a) new ≡ some u) × HasNodes u (xs ++ new ∷ a ∷ ys)
unfolding insert_node
insert_node-HasNodes leaf xs a ys new h n b =
    absurd (omega (arith, HasNodes-size leaf _ h, length-append xs (a ∷ ys)))
insert_node-HasNodes (node x ht s l r) xs a ys new h n b =
    let t = node x ht s l r in
    let (c, found, at) =
      locate_in-IsNodeAt t xs a ys h.order (subst Distinct (sym h.order) h.distinct) in
    (
      attach_before c new,
      rw found,
      record {
        order =
            to_list-attach_before c new
            ∙ ap₂ (λ u v. u ++ new ∷ v) at.nodes_before (ap₂ ◌∷◌ at.at at.nodes_after);
        distinct = Distinct-insert xs new (a ∷ ys) h.distinct n;
        measured =
            attach_before-IsMeasured c new (subst IsMeasured (sym at.same_root) h.measured)
              (omega (arith, ap real_size at.same_root, HasNodes-size t _ h));
        small = omega (arith, length-append xs (a ∷ ys), length-append xs (new ∷ a ∷ ys));
      },
    )

-- One node less.
pub detach-HasNodes :
    (t : Tree ℕ) (xs : List ℕ) (a : ℕ) (ys : List ℕ) (c : Cursor ℕ)
    → HasNodes t (xs ++ a ∷ ys)
    → IsNodeAt t xs a ys c
    → HasNodes (detach c) (xs ++ ys)
detach-HasNodes t xs a ys c h at = record {
  order = to_list-detach c ∙ ap₂ ◌++◌ at.nodes_before at.nodes_after;
  distinct = Distinct-remove xs a ys h.distinct;
  measured =
      detach-IsMeasured c (subst IsMeasured (sym at.same_root) h.measured)
        (omega (arith, h.small, ap real_size at.same_root, HasNodes-size t _ h));
  small = omega (arith, h.small, length-append xs (a ∷ ys), length-append xs ys);
}

-- The node after `a`.
pub forward_node :
    (t : Tree ℕ) (xs : List ℕ) (a b : ℕ) (ys : List ℕ) (c : Cursor ℕ)
    → IsNodeAt t xs a (b ∷ ys) c
    → (d : Cursor ℕ) × (forward c ≡ some d) × (d.item ≡ b)
forward_node t xs a b ys c at = go (forward c) (forward-IsNext c)
  where
    go : (o : Option (Cursor ℕ)) → IsNext c o → (d : Cursor ℕ) × (o ≡ some d) × (d.item ≡ b)
    go none k = cc (k, at.nodes_after)
    go (some d) k = (d, refl, head-eq_of_cons-eq (sym k.2 ∙ at.nodes_after))

-- What stands after the first of `ids` and `e`.
abbrev pub rest_of : List ℕ → ℕ → List ℕ
rest_of [] e = []
rest_of (x ∷ xs) e = xs ++ e ∷ []

pub first-rest : (ids : List ℕ) (e : ℕ) → ids ++ e ∷ [] ≡ first_or ids e ∷ rest_of ids e
first-rest [] e = refl
first-rest (x ∷ xs) e = refl

-- The nodes around a place between `pre` and `post`.
around :
    (b : ℕ) (pre post : List ℕ) (e : ℕ)
    → b ∷ (pre ++ post ++ e ∷ []) ≡ (b ∷ pre) ++ first_or post e ∷ rest_of post e
around b pre post e =
    ap (λ u. b ∷ u) (append_assoc pre post (e ∷ []) ∙ ap (λ u. pre ++ u) (first-rest post e))

around_inserted :
    (b : ℕ) (pre : List ℕ) (new : ℕ) (post : List ℕ) (e : ℕ)
    → b ∷ (pre ++ (new ∷ post) ++ e ∷ []) ≡ (b ∷ pre) ++ new ∷ first_or post e ∷ rest_of post e
around_inserted b pre new post e =
    ap (λ u. b ∷ u)
      (append_assoc pre (new ∷ post) (e ∷ []) ∙ ap (λ u. pre ++ new ∷ u) (first-rest post e))

module _ {ℓ} {T : Type ℓ} where
  -- Insertion before the first of `post`, or before the end.
  pub record Inserts (st : Stump T) (pre : List ℕ) (new : ℕ) (post : List ℕ) (st' : Stump T)
      : Type ℓ where
    pub runs : insert_before st (some (first_or post st.end)) new ≡ some st'
    pub holds : Holds st' (pre ++ new ∷ post)
    pub values : st'.values ≡ st.values
    pub end : st'.end ≡ st.end
    pub before_begin : st'.before_begin ≡ st.before_begin

  begin_after_insert :
      (st : Stump T) (pre : List ℕ) (new : ℕ) (post : List ℕ)
      → Holds st (pre ++ post)
      → (if ptr_eq (some (first_or post st.end)) st.begin then some new else st.begin)
        ≡ some (first_or (pre ++ new ∷ post) st.end)
  begin_after_insert st [] new post h =
      rw (h.begins, (==_iff (first_or post st.end) (first_or post st.end)).1 refl) refl
  begin_after_insert st (p ∷ pre) new post h =
      let e = append_assoc pre post (st.end ∷ []) ∙ ap (λ u. pre ++ u) (first-rest post st.end) in
      let apart : p ≢ first_or post st.end =
        (NotIn-parts p pre _ (subst (NotIn p) e h.tree.distinct.1.0)).1.0 in
      let other : (first_or post st.end == p) ≡ false = ground arith in rw (h.begins, other) refl

  -- `insert_before` links a new node in before the first of `post` (or before the end node), keeps
  -- every other node and its value, and keeps `begin` at the first node.
  pub insert_before-Inserts :
      (st : Stump T) (pre : List ℕ) (new : ℕ) (post : List ℕ)
      → Holds st (pre ++ post)
      → NotIn new (all_nodes st (pre ++ post))
      → length (all_nodes st (pre ++ post)) + 1 < size_mod
      → (st' : Stump T) × Inserts st pre new post st'
  unfolding insert_before
  insert_before-Inserts st pre new post h n b =
      let e = around st.before_begin pre post st.end in
      let (u, found, nodes) =
        insert_node-HasNodes st.root (st.before_begin ∷ pre) (first_or post st.end)
          (rest_of post st.end) new (subst (HasNodes st.root) e h.tree) (subst (NotIn new) e n)
          (omega (arith, ap length e)) in
      (
        record st {
          root = u;
          begin = if ptr_eq (some (first_or post st.end)) st.begin then some new else st.begin;
        },
        record {
          runs = rw found refl;
          holds = record {
            tree =
                subst (HasNodes u) (sym (around_inserted st.before_begin pre new post st.end))
                  nodes;
            begins = begin_after_insert st pre new post h;
          };
          values = refl;
          end = refl;
          before_begin = refl;
        },
      )
