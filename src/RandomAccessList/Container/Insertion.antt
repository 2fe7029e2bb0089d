-- ===== src/RandomAccessList/Container/Insertion.antt =====
-- random_access_list.hpp: what `emplace` and the range form of `insert` do to the sequence of
-- values, and that an exception leaves the container as it was.
use garbage.Prelude.{
  returns, update, ℕ, ◌+◌, ◌<◌, ◌≡◌, ◌≢◌, refl, sym, subst, ap, ap₂, ◌∙◌, [], ◌∷◌, ◌++◌, List,
  Option, some, arith, append_assoc, append-nil, NotIn, NotIn-append, NotIn-parts, Distinct, length,
  map, length-append, size_mod,
}
use mathlib.Core.List.{map-append}
use garbage.RandomAccessList.Stump.{Stump, insert_before}
use garbage.RandomAccessList.Stump.Laws.{first_or, all_nodes, Holds, insert_before-Inserts}
use garbage.RandomAccessList.Container.{emplace, insert_nodes}

module _ {ℓ} {T : Type ℓ} where
  -- The values of the nodes `ids`, in order.
  abbrev pub contents : Stump T → List ℕ → List (Option T)
  contents st ids = map st.values ids

  -- No node of the container has this address.
  abbrev pub IsFresh : Stump T → List ℕ → ℕ → Type 0
  IsFresh st ids a = (a ≢ st.before_begin) × (a ≢ st.end) × NotIn a ids

  abbrev pub AllFresh : Stump T → List ℕ → List ℕ → Type 0
  AllFresh st ids [] = Unit
  AllFresh st ids (n ∷ ns) = IsFresh st ids n × AllFresh st ids ns

  pub IsFresh-NotIn :
      (st : Stump T) (ids : List ℕ) (a : ℕ) → IsFresh st ids a → NotIn a (all_nodes st ids)
  IsFresh-NotIn st ids a f = (f.0, NotIn-append a ids (st.end ∷ []) f.2 (f.1, tt))

  pub map-update :
      (values : ℕ → Option T) (a : ℕ) (v : Option T) (ids : List ℕ)
      → NotIn a ids
      → map (update values a v) ids ≡ map values ids
  map-update values a v [] n = refl
  map-update values a v (x ∷ ids) n = ap₂ ◌∷◌ (ground arith) (map-update values a v ids n.1)

  -- In a container with the invariant of selfCheckIfConstructed, with a fresh node address and a
  -- node count that stays below 2^64: emplace of a value that is made puts its node before the
  -- iterator, returns it, and keeps all others and the invariant.
  pub emplace_lem :
      (st : Stump T) (pre post : List ℕ) (new : ℕ) (v : T)
      → Holds st (pre ++ post)
      → IsFresh st (pre ++ post) new
      → length (all_nodes st (pre ++ post)) + 1 < size_mod
      → (st' : Stump T) × (emplace st (first_or post st.end) (new, some v) ≡ some (returns st' new))
        × Holds st' (pre ++ new ∷ post)
        × (contents st' (pre ++ new ∷ post) ≡ contents st pre ++ some v ∷ contents st post)
  unfolding emplace
  emplace_lem st pre post new v h f b =
      let made = record st { values = update st.values new (some v) } in
      let (st', i) =
        insert_before-Inserts made pre new post (record { tree = h.tree; begins = h.begins })
          (IsFresh-NotIn st (pre ++ post) new f) b in
      let apart = NotIn-parts new pre post f.2 in
      let here : update st.values new (some v) new ≡ some v = ground arith in
      (
        st',
        rw i.runs refl,
        i.holds,
        ap (λ values. map values (pre ++ new ∷ post)) i.values
            ∙ (map-append _ pre (new ∷ post)
                ∙ ap₂ ◌++◌ (map-update st.values new (some v) pre apart.0)
                    (ap₂ ◌∷◌ here (map-update st.values new (some v) post apart.1))),
      )

  pub AllFresh-step :
      (st st' : Stump T) (pre post : List ℕ) (n : ℕ) (ns : List ℕ)
      → AllFresh st (pre ++ post) ns
      → NotIn n ns
      → st'.before_begin ≡ st.before_begin
      → st'.end ≡ st.end
      → AllFresh st' (pre ++ n ∷ [] ++ post) ns
  AllFresh-step st st' pre post n [] f d b e = tt
  AllFresh-step st st' pre post n (m ∷ ns) f d b e =
      let old = NotIn-parts m pre post f.0.2 in
      let in_pre = NotIn-append m pre (n ∷ []) old.0 ((λ q. d.0 (sym q)), tt) in
      (
        (
          (λ q. f.0.0 (q ∙ b)),
          (λ q. f.0.1 (q ∙ e)),
          NotIn-append m (pre ++ n ∷ []) post in_pre old.1,
        ),
        AllFresh-step st st' pre post n ns f.1 d.1 b e,
      )

  pub record InsertsAll (st : Stump T) (pre nodes post : List ℕ) (st' : Stump T) : Type ℓ where
    pub runs : insert_nodes st nodes (first_or post st.end) ≡ some st'
    pub holds : Holds st' (pre ++ nodes ++ post)
    pub values : st'.values ≡ st.values

  insert_nodes-cons :
      (st st' st'' : Stump T) (n : ℕ) (ns : List ℕ) (pos : ℕ)
      → insert_before st (some pos) n ≡ some st'
      → insert_nodes st' ns pos ≡ some st''
      → insert_nodes st (n ∷ ns) pos ≡ some st''
  unfolding insert_nodes
  insert_nodes-cons st st' st'' n ns pos once rest = rw (once, rest, insert_nodes)

  -- Fresh nodes that go in one by one at the same place end up there in their order.
  pub insert_nodes-InsertsAll :
      (nodes : List ℕ) (st : Stump T) (pre post : List ℕ)
      → Holds st (pre ++ post)
      → Distinct nodes
      → AllFresh st (pre ++ post) nodes
      → length (all_nodes st (pre ++ post)) + length nodes < size_mod
      → (st' : Stump T) × InsertsAll st pre nodes post st'
  unfolding insert_nodes
  insert_nodes-InsertsAll [] st pre post h d f b = (
    st,
    record {
      runs = refl;
      holds = subst (λ u. Holds st (u ++ post)) (sym (append-nil pre)) h;
      values = refl;
    },
  )
  insert_nodes-InsertsAll (n ∷ ns) st pre post h d f b =
      let (st', i) =
        insert_before-Inserts st pre n post h (IsFresh-NotIn st (pre ++ post) n f.0)
          (omega arith) in
      let place = append_assoc pre (n ∷ []) post in
      let (st'', r) =
        insert_nodes-InsertsAll ns st' (pre ++ n ∷ []) post (subst (Holds st') (sym place) i.holds)
          d.1 (AllFresh-step st st' pre post n ns f.1 d.0 i.before_begin i.end)
          (omega (
            arith,
            length-append pre post,
            length-append (pre ++ post) (st.end ∷ []),
            length-append pre (n ∷ []),
            length-append (pre ++ n ∷ []) post,
            length-append (pre ++ n ∷ [] ++ post) (st'.end ∷ []),
          )) in
      (
        st'',
        record {
          runs =
              insert_nodes-cons st st' st'' n ns (first_or post st.end) i.runs
                (subst (λ e. insert_nodes st' ns (first_or post e) ≡ some st'') i.end r.runs);
          holds = subst (λ u. Holds st'' (u ++ post)) (append_assoc pre (n ∷ []) ns) r.holds;
          values = r.values ∙ i.values;
        },
      )
