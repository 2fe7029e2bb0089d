-- ===== src/RandomAccessList/Container/RangeInsertion.antt =====
-- random_access_list.hpp: `insert(pos, first, last)`, which makes all nodes before it links any.
use garbage.Prelude.{
  returns, throws, update, ◌>>=◌, ℕ, ◌+◌, ◌<◌, ◌≡◌, refl, ap, ap₂, ◌∙◌, [], ◌∷◌, ◌++◌, List, Option,
  none, some, arith, NotIn, NotIn-parts, Distinct, length, map, size_mod,
}
use mathlib.Core.List.{map-append}
use garbage.RandomAccessList.Stump.{Stump}
use garbage.RandomAccessList.Stump.Laws.{first_or, all_nodes, Holds}
use garbage.RandomAccessList.Container.{
  insert_nodes, insert_nodes_from_list_and_return_first_inserted, make_nodes, insert,
}
use garbage.RandomAccessList.Container.Insertion.{
  contents, AllFresh, insert_nodes-InsertsAll, map-update,
}

abbrev pub NoneIn : List ℕ → List ℕ → Type 0
NoneIn [] ids = Unit
NoneIn (n ∷ ns) ids = NotIn n ids × NoneIn ns ids

module _ {ℓ} {T : Type ℓ} where
  -- Addresses with the values that their constructors give.
  abbrev pub made_of : List (ℕ × T) → List (ℕ × Option T)
  made_of items = map (λ p. (p.0, some p.1)) items

  abbrev pub nodes_of : List (ℕ × T) → List ℕ
  nodes_of items = map (λ p. p.0) items

  abbrev pub values_of : List (ℕ × T) → List (Option T)
  values_of items = map (λ p. some p.1) items

  abbrev store : (ℕ → Option T) → List (ℕ × T) → ℕ → Option T
  store values [] = values
  store values ((a, v) ∷ items) = store (update values a (some v)) items

  make_nodes_ok :
      (values : ℕ → Option T) (items : List (ℕ × T))
      → make_nodes values (made_of items) ≡ some (store values items, nodes_of items)
  unfolding make_nodes
  make_nodes_ok values [] = refl
  make_nodes_ok values ((a, v) ∷ items) = rw (make_nodes_ok (update values a (some v)) items) refl

  make_nodes_throws :
      (values : ℕ → Option T) (items : List (ℕ × T)) (a : ℕ) (rest : List (ℕ × Option T))
      → make_nodes values (made_of items ++ (a, none) ∷ rest) ≡ none
  unfolding make_nodes
  make_nodes_throws values [] a rest = refl
  make_nodes_throws values ((b, v) ∷ items) a rest =
      rw (make_nodes_throws (update values b (some v)) items a rest) refl

  store_other :
      (items : List (ℕ × T)) (values : ℕ → Option T) (k : ℕ)
      → NotIn k (nodes_of items)
      → store values items k ≡ values k
  store_other [] values k n = refl
  store_other ((a, v) ∷ items) values k n =
      store_other items (update values a (some v)) k n.1 ∙ ground arith

  store_nodes :
      (items : List (ℕ × T)) (values : ℕ → Option T)
      → Distinct (nodes_of items)
      → map (store values items) (nodes_of items) ≡ values_of items
  store_nodes [] values d = refl
  store_nodes ((a, v) ∷ items) values d =
      let here : update values a (some v) a ≡ some v = ground arith in
      ap₂ ◌∷◌ (store_other items (update values a (some v)) a d.0 ∙ here)
        (store_nodes items (update values a (some v)) d.1)

  pub AllFresh-NoneIn :
      (st : Stump T) (pre post ns : List ℕ)
      → AllFresh st (pre ++ post) ns
      → NoneIn ns pre × NoneIn ns post
  AllFresh-NoneIn st pre post [] f = (tt, tt)
  AllFresh-NoneIn st pre post (n ∷ ns) f =
      let here = NotIn-parts n pre post f.0.2 in
      let rest = AllFresh-NoneIn st pre post ns f.1 in ((here.0, rest.0), (here.1, rest.1))

  store_kept :
      (items : List (ℕ × T)) (values : ℕ → Option T) (ids : List ℕ)
      → NoneIn (nodes_of items) ids
      → map (store values items) ids ≡ map values ids
  store_kept [] values ids f = refl
  store_kept ((a, v) ∷ items) values ids f =
      store_kept items (update values a (some v)) ids f.1 ∙ map-update values a (some v) ids f.0

  pub same_fresh :
      (st : Stump T) (values : ℕ → Option T) (ids ns : List ℕ)
      → AllFresh st ids ns
      → AllFresh (record st { values = values }) ids ns
  same_fresh st values ids [] f = tt
  same_fresh st values ids (n ∷ ns) f = (f.0, same_fresh st values ids ns f.1)

  pub returns_first :
      (st st' : Stump T) (nodes post : List ℕ) (e : ℕ)
      → insert_nodes st nodes (first_or post e) ≡ some st'
      → insert_nodes_from_list_and_return_first_inserted st nodes (first_or post e)
        ≡ some (st', first_or (nodes ++ post) e)
  unfolding insert_nodes_from_list_and_return_first_inserted
  returns_first st st' [] post e r = ap (λ o. o >>= λ u. some (u, first_or post e)) r
  returns_first st st' (n ∷ ns) post e r = ap (λ o. o >>= λ u. some (u, n)) r

  insert_run :
      (st st' : Stump T) (items : List (ℕ × T)) (pos first : ℕ)
      → insert_nodes_from_list_and_return_first_inserted
          (record st { values = store st.values items })
          (nodes_of items)
          pos
        ≡ some (st', first)
      → insert st pos (made_of items) ≡ some (returns st' first)
  unfolding insert
  insert_run st st' items pos first r = rw (make_nodes_ok st.values items, r, insert)

  -- In a container with the invariant of selfCheckIfConstructed, with fresh distinct node
  -- addresses and a node count that stays below 2^64: where every constructor of the new values
  -- succeeds, insert(pos, first, last) puts their nodes before pos in their order, returns the
  -- first of them, keeps every other node with its value, and keeps the invariant.
  pub insert_lem :
      (st : Stump T) (pre post : List ℕ) (items : List (ℕ × T))
      → Holds st (pre ++ post)
      → Distinct (nodes_of items)
      → AllFresh st (pre ++ post) (nodes_of items)
      → length (all_nodes st (pre ++ post)) + length (nodes_of items) < size_mod
      → (st' : Stump T) × (insert st (first_or post st.end) (made_of items)
          ≡ some (returns st' (first_or (nodes_of items ++ post) st.end)))
        × Holds st' (pre ++ nodes_of items ++ post)
        × (contents st' (pre ++ nodes_of items ++ post)
            ≡ contents st pre ++ values_of items ++ contents st post)
  insert_lem st pre post items h d f b =
      let values = store st.values items in
      let (st', r) =
        insert_nodes-InsertsAll (nodes_of items) (record st { values = values }) pre post
          (record { tree = h.tree; begins = h.begins }) d (same_fresh st values (pre ++ post) _ f)
          b in
      let apart = AllFresh-NoneIn st pre post (nodes_of items) f in
      (
        st',
        insert_run st st' items _ _ (returns_first _ st' (nodes_of items) post st.end r.runs),
        r.holds,
        ap (λ v. map v (pre ++ nodes_of items ++ post)) r.values
            ∙ (map-append _ (pre ++ nodes_of items) post
                ∙ ap₂ ◌++◌
                    (map-append _ pre (nodes_of items)
                      ∙ ap₂ ◌++◌ (store_kept items st.values pre apart.0)
                          (store_nodes items st.values d))
                    (store_kept items st.values post apart.1)),
      )

  -- Where a constructor throws after any number of nodes was made, insert ends with the exception
  -- and leaves the container as it was.
  pub insert_throws :
      (st : Stump T) (pos : ℕ) (items : List (ℕ × T)) (a : ℕ) (rest : List (ℕ × Option T))
      → insert st pos (made_of items ++ (a, none) ∷ rest) ≡ some (throws st)
  unfolding insert
  insert_throws st pos items a rest = rw (make_nodes_throws st.values items a rest, insert)
