-- ===== src/RandomAccessList/Stump/Deletion.antt =====
-- random_access_list.hpp: `delete_and_get_next` takes one node out of a container.
use garbage.Prelude.{
  ptr_eq, update, ℕ, ◌≡◌, ◌≢◌, refl, sym, subst, ap, ◌∙◌, Bool, false, ◌||◌, [], ◌∷◌, ◌++◌, List,
  none, some, arith, append_assoc, NotIn, NotIn-parts, Distinct, Distinct-middle, ◌==◌, ==_iff,
  if◌then◌else◌,
}
use garbage.AvlTree.Nodes.{Cursor}
use garbage.AvlTree.Edit.{detach}
use garbage.RandomAccessList.Stump.{Stump, delete_, delete_and_get_next}
use garbage.RandomAccessList.Stump.Locate.{IsNodeAt, locate_in-IsNodeAt}
use garbage.RandomAccessList.Stump.Laws.{
  first_or, rest_of, first-rest, HasNodes, Holds, detach-HasNodes, forward_node,
}

pub around_deleted :
    (b : ℕ) (pre : List ℕ) (a : ℕ) (post : List ℕ) (e : ℕ)
    → b ∷ (pre ++ a ∷ post ++ e ∷ []) ≡ (b ∷ pre) ++ a ∷ (post ++ e ∷ [])
around_deleted b pre a post e = ap (λ u. b ∷ u) (append_assoc pre (a ∷ post) (e ∷ []))

module _ {ℓ} {T : Type ℓ} where
  pub record Deletes (st : Stump T) (pre : List ℕ) (a : ℕ) (post : List ℕ) (destroy : Bool)
      (st' : Stump T) : Type ℓ where
    pub runs : delete_and_get_next st a destroy ≡ some (st', first_or post st.end)
    pub holds : Holds st' (pre ++ post)
    pub values : st'.values ≡ (if destroy then update st.values a none else st.values)
    pub end : st'.end ≡ st.end
    pub before_begin : st'.before_begin ≡ st.before_begin

  begin_after_delete :
      (st : Stump T) (pre : List ℕ) (a : ℕ) (post : List ℕ)
      → Holds st (pre ++ a ∷ post)
      → (if ptr_eq st.begin (some a) then some (first_or post st.end) else st.begin)
        ≡ some (first_or (pre ++ post) st.end)
  begin_after_delete st [] a post h = rw (h.begins, (==_iff a a).1 refl) refl
  begin_after_delete st (p ∷ pre) a post h =
      let apart : p ≢ a =
        (NotIn-parts p pre (a ∷ (post ++ st.end ∷ []))
          (subst (NotIn p) (append_assoc pre (a ∷ post) (st.end ∷ [])) h.tree.distinct.1.0)).1.0 in
      let other : (p == a) ≡ false = ground arith in rw (h.begins, other) refl

  not_gap :
      (st : Stump T) (pre : List ℕ) (a : ℕ) (post : List ℕ)
      → Holds st (pre ++ a ∷ post)
      → (a == st.before_begin || a == st.end) ≡ false
  not_gap st pre a post h =
      let d = subst Distinct (around_deleted st.before_begin pre a post st.end) h.tree.distinct in
      let first : a ≢ st.before_begin = (Distinct-middle (st.before_begin ∷ pre) a _ d).0.0 in
      let last : a ≢ st.end =
        (NotIn-parts a post (st.end ∷ []) (Distinct-middle (st.before_begin ∷ pre) a _ d).1).1.0 in
      ground arith

  delete_-at :
      (st : Stump T) (pre : List ℕ) (a : ℕ) (post : List ℕ) (destroy : Bool) (c : Cursor ℕ)
      → Holds st (pre ++ a ∷ post)
      → c.item ≡ a
      → delete_ st c destroy ≡ record st {
        root = detach c;
        values = if destroy then update st.values c.item none else st.values;
      }
  unfolding delete_
  delete_-at st pre a post destroy c h at =
      rw (ap (λ k. k == st.before_begin || k == st.end) at ∙ not_gap st pre a post h) refl

  -- `delete_and_get_next` unlinks its node, returns the one after it (or the end node), keeps every
  -- other node and its value, and keeps `begin` at the first node.
  pub delete_and_get_next-Deletes :
      (st : Stump T) (pre : List ℕ) (a : ℕ) (post : List ℕ) (destroy : Bool)
      → Holds st (pre ++ a ∷ post)
      → (st' : Stump T) × Deletes st pre a post destroy st'
  unfolding delete_and_get_next
  delete_and_get_next-Deletes st pre a post destroy h =
      let e = around_deleted st.before_begin pre a post st.end in
      let nodes = subst (HasNodes st.root) e h.tree in
      let (c, found, at) =
        locate_in-IsNodeAt st.root (st.before_begin ∷ pre) a (post ++ st.end ∷ []) nodes.order
          (subst Distinct (sym h.tree.order) h.tree.distinct) in
      let (d, next, item) =
        forward_node st.root (st.before_begin ∷ pre) a (first_or post st.end) (rest_of post st.end)
          c
          (subst (λ u. IsNodeAt st.root (st.before_begin ∷ pre) a u c) (first-rest post st.end)
            at) in
      (
        record st {
          root = detach c;
          begin = if ptr_eq st.begin (some a) then some (first_or post st.end) else st.begin;
          values = if destroy then update st.values a none else st.values;
        },
        record {
          runs = rw (found, next, item, delete_-at st pre a post destroy c h at.at, at.at) refl;
          holds = record {
            tree =
                subst (HasNodes (detach c))
                  (ap (λ u. st.before_begin ∷ u) (sym (append_assoc pre post (st.end ∷ []))))
                  (detach-HasNodes st.root (st.before_begin ∷ pre) a (post ++ st.end ∷ []) c nodes
                    at);
            begins = begin_after_delete st pre a post h;
          };
          values = refl;
          end = refl;
          before_begin = refl;
        },
      )
