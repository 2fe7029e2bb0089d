-- ===== src/RandomAccessList/Stump/Ranges.antt =====
-- random_access_list.hpp: `resetInvariant`, and the loops that delete a range of nodes.
use garbage.Prelude.{
  update, ◌>>=◌, ℕ, zero, suc, ◌<◌, ◌≡◌, ◌≢◌, refl, sym, subst, ap, ◌∙◌, Bool, true, false, [], ◌∷◌,
  ◌++◌, List, Option, none, some, arith, append_assoc, append-nil, NotIn, NotIn-parts, Distinct,
  Distinct-middle, ◌==◌, ==_iff, if◌then◌else◌, length,
}
use garbage.AvlTree.Edit.{new_node}
use garbage.RandomAccessList.Stump.{
  Stump, insert_before, reset_invariant, delete_and_get_next, delete_range,
  destruct_value_and_delete_node_since_begin_to_before_end,
}
use garbage.RandomAccessList.Stump.Laws.{first_or, first-rest, Holds, insert_node-HasNodes}
use garbage.RandomAccessList.Stump.Deletion.{delete_and_get_next-Deletes}

module _ {ℓ} {T : Type ℓ} where
  -- A run of the loop that has deleted `mid`.
  pub record DeletesRange (st : Stump T) (pre mid post : List ℕ) (destroy : Bool) (fuel : ℕ)
      (st' : Stump T) : Type ℓ where
    pub runs :
        delete_range fuel destroy st (first_or (mid ++ post) st.end) (first_or post st.end)
        ≡ some (st', mid)
    pub holds : Holds st' (pre ++ post)
    pub kept : (k : ℕ) → NotIn k mid → st'.values k ≡ st.values k
    pub moved : destroy ≡ false → st'.values ≡ st.values
    pub end : st'.end ≡ st.end
    pub before_begin : st'.before_begin ≡ st.before_begin

  first_apart :
      (st : Stump T) (pre : List ℕ) (a : ℕ) (mid rest : List ℕ)
      → Holds st (pre ++ a ∷ (mid ++ rest))
      → a ≢ first_or rest st.end
  first_apart st pre a mid rest h =
      let whole = append_assoc pre (a ∷ (mid ++ rest)) (st.end ∷ []) in
      let tail =
        append_assoc mid rest (st.end ∷ []) ∙ ap (λ u. mid ++ u) (first-rest rest st.end) in
      let later = (Distinct-middle pre a _ (subst Distinct whole h.tree.distinct.1)).1 in
      (NotIn-parts a mid _ (subst (NotIn a) tail later)).1.0

  delete_range-nil :
      (fuel : ℕ) (destroy : Bool) (st : Stump T) (to : ℕ)
      → delete_range (suc fuel) destroy st to to ≡ some (st, [])
  unfolding delete_range
  delete_range-nil fuel destroy st to = rw ((==_iff to to).1 refl, delete_range)

  delete_range-cons :
      (fuel : ℕ) (destroy : Bool) (st st' st'' : Stump T) (a next to : ℕ) (mid : List ℕ)
      → (a == to) ≡ false
      → delete_and_get_next st a destroy ≡ some (st', next)
      → delete_range fuel destroy st' next to ≡ some (st'', mid)
      → delete_range (suc fuel) destroy st a to ≡ some (st'', a ∷ mid)
  unfolding delete_range
  delete_range-cons fuel destroy st st' st'' a next to mid other once rest =
      rw (other, once, rest, delete_range)

  kept_one :
      (destroy : Bool) (values : ℕ → Option T) (a k : ℕ)
      → k ≢ a
      → (if destroy then update values a none else values) k ≡ values k
  kept_one true values a k ne = ground arith
  kept_one false values a k ne = refl

  -- With more fuel than nodes, the loop from the first of `mid` to the first after it deletes
  -- exactly `mid`, lists it in order, and touches no other node's value.
  pub delete_range-DeletesRange :
      (fuel : ℕ) (st : Stump T) (pre mid post : List ℕ) (destroy : Bool)
      → Holds st (pre ++ (mid ++ post))
      → length mid < fuel
      → (st' : Stump T) × DeletesRange st pre mid post destroy fuel st'
  unfolding delete_range
  delete_range-DeletesRange zero st pre mid post destroy h b = absurd (omega arith)
  delete_range-DeletesRange (suc fuel) st pre [] post destroy h b = (
    st,
    record {
      runs = delete_range-nil fuel destroy st (first_or post st.end);
      holds = h;
      kept = λ k n. refl;
      moved = λ e. refl;
      end = refl;
      before_begin = refl;
    },
  )
  delete_range-DeletesRange (suc fuel) st pre (a ∷ mid) post destroy h b =
      let other : (a == first_or post st.end) ≡ false =
        ground (arith, first_apart st pre a mid post h) in
      let (st', d) = delete_and_get_next-Deletes st pre a (mid ++ post) destroy h in
      let (st'', r) =
        delete_range-DeletesRange fuel st' pre mid post destroy d.holds (omega arith) in
      (
        st'',
        record {
          runs =
              delete_range-cons fuel destroy st st' st'' a (first_or (mid ++ post) st.end)
                (first_or post st.end) mid other d.runs
                (subst
                  (λ e.
                    delete_range fuel destroy st' (first_or (mid ++ post) e) (first_or post e)
                    ≡ some (st'', mid))
                  d.end r.runs);
          holds = r.holds;
          kept =
              λ k n. r.kept k n.1 ∙ (ap (λ f. f k) d.values ∙ kept_one destroy st.values a k n.0);
          moved = λ e. r.moved e ∙ (d.values ∙ rw e refl);
          end = r.end ∙ d.end;
          before_begin = r.before_begin ∙ d.before_begin;
        },
      )

  destruct_run :
      (fuel : ℕ) (st st' : Stump T) (first : ℕ) (nodes : List ℕ)
      → st.begin ≡ some first
      → delete_range fuel true st first st.end ≡ some (st', nodes)
      → destruct_value_and_delete_node_since_begin_to_before_end fuel st ≡ some st'
  unfolding destruct_value_and_delete_node_since_begin_to_before_end
  destruct_run fuel st st' first nodes b r =
      ap (λ o. o >>= λ a. delete_range fuel true st a st.end >>= λ p. some p.0) b
      ∙ ap (λ o. o >>= λ p. some p.0) r

  -- In a container with the invariant of selfCheckIfConstructed, the destructor's loop, which is
  -- also clear, ends with one round more than there are nodes, and leaves the two gap nodes with
  -- the invariant.
  pub destruct-Holds :
      (fuel : ℕ) (st : Stump T) (ids : List ℕ)
      → Holds st ids
      → length ids < fuel
      → (st' : Stump T) × (destruct_value_and_delete_node_since_begin_to_before_end fuel st
          ≡ some st')
        × Holds st' []
  destruct-Holds fuel st ids h b =
      let (st', r) =
        delete_range-DeletesRange fuel st [] ids [] true (subst (Holds st) (sym (append-nil ids)) h)
          b in
      let runs =
        subst (λ u. delete_range fuel true st (first_or u st.end) st.end ≡ some (st', ids))
          (append-nil ids) r.runs in
      (st', destruct_run fuel st st' _ ids h.begins runs, r.holds)

  -- From any state with two different gap nodes, resetInvariant leaves an empty container with
  -- the invariant and touches no value.
  pub reset_invariant-Holds :
      (st : Stump T)
      → st.before_begin ≢ st.end
      → (st' : Stump T) × (reset_invariant st ≡ some st')
        × Holds st' []
        × (st'.values ≡ st.values)
        × (st'.end ≡ st.end)
        × (st'.before_begin ≡ st.before_begin)
  unfolding reset_invariant insert_before
  reset_invariant-Holds st ne =
      let (u, found, nodes) =
        insert_node-HasNodes (new_node st.end) [] st.end [] st.before_begin
          (record {
            order = refl;
            distinct = (tt, tt);
            measured = (refl, refl, tt, tt);
            small = omega arith;
          })
          (ne, tt) (omega arith) in
      (
        record st { root = u; begin = some st.end },
        rw found refl,
        record { tree = nodes; begins = refl },
        refl,
        refl,
        refl,
      )
