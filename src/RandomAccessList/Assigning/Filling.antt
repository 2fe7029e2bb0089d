-- ===== src/RandomAccessList/Assigning/Filling.antt =====
-- random_access_list.hpp: `assign` and the constructors that call it, on the sequence of values.
use garbage.Prelude.{
  returns, throws, update, ℕ, ◌+◌, ◌<◌, ◌≡◌, ◌≢◌, refl, sym, subst, ap, ap₂, ◌∙◌, [], ◌∷◌, ◌++◌,
  List, Option, none, some, arith, append_assoc, append-nil, NotIn, NotIn-parts, Distinct,
  Distinct-prefix, length, length-append, map, size_mod,
}
use mathlib.Core.List.{map-append}
use garbage.RandomAccessList.Stump.{Stump}
use garbage.RandomAccessList.Stump.Laws.{all_nodes, Holds, insert_before-Inserts}
use garbage.RandomAccessList.Stump.Ranges.{reset_invariant-Holds}
use garbage.RandomAccessList.Container.{emplace, emplace_back}
use garbage.RandomAccessList.Container.Insertion.{
  contents, IsFresh, IsFresh-NotIn, AllFresh, AllFresh-step, map-update,
}
use garbage.RandomAccessList.Container.RangeInsertion.{made_of, nodes_of, values_of}
use garbage.RandomAccessList.Moving.Laws.{Spread, AllFresh-empty}
use garbage.RandomAccessList.Assigning.{raw_stump, make_implementation, push_all, assign}

module _ {ℓ} {T : Type ℓ} where
  record Pushes (st : Stump T) (ids : List ℕ) (new : ℕ) (v : T) (st' : Stump T) : Type ℓ where
    runs : emplace_back st (new, some v) ≡ some (returns st' new)
    holds : Holds st' (ids ++ new ∷ [])
    values : contents st' (ids ++ new ∷ []) ≡ contents st ids ++ some v ∷ []
    end : st'.end ≡ st.end
    before_begin : st'.before_begin ≡ st.before_begin

  emplace_back-Pushes :
      (st : Stump T) (ids : List ℕ) (new : ℕ) (v : T)
      → Holds st ids
      → IsFresh st ids new
      → length (all_nodes st ids) + 1 < size_mod
      → (st' : Stump T) × Pushes st ids new v st'
  unfolding emplace_back emplace
  emplace_back-Pushes st ids new v h f b =
      let made = record st { values = update st.values new (some v) } in
      let e = append-nil ids in
      let whole : Holds made (ids ++ []) =
        subst (Holds made) (sym e) (record { tree = h.tree; begins = h.begins }) in
      let (st', i) =
        insert_before-Inserts made ids new [] whole
          (subst (λ u. NotIn new (all_nodes made u)) (sym e) (IsFresh-NotIn st ids new f))
          (subst (λ u. length (all_nodes made u) + 1 < size_mod) (sym e) b) in
      let here : update st.values new (some v) new ≡ some v = ground arith in
      (
        st',
        record {
          runs = rw i.runs refl;
          holds = i.holds;
          values =
              ap (λ values. map values (ids ++ new ∷ [])) i.values
              ∙ (map-append _ ids (new ∷ [])
                  ∙ ap₂ ◌++◌ (map-update st.values new (some v) ids f.2) (ap (λ u. u ∷ []) here));
          end = i.end;
          before_begin = i.before_begin;
        },
      )

  push_all-step :
      (st st' : Stump T) (made : ℕ × Option T) (it : ℕ) (rest : List (ℕ × Option T))
      {result : Option (Option (Stump T))}
      → emplace_back st made ≡ some (returns st' it)
      → push_all st' rest ≡ result
      → push_all st (made ∷ rest) ≡ result
  unfolding push_all
  push_all-step st st' made it rest once r = rw (once, push_all) r

  -- The values that are made go to the back, and the loop goes on with what is left.
  record PushesAll (st : Stump T) (ids : List ℕ) (items : List (ℕ × T)) (st' : Stump T)
      : Type ℓ where
    runs : (rest : List (ℕ × Option T)) → push_all st (made_of items ++ rest) ≡ push_all st' rest
    holds : Holds st' (ids ++ nodes_of items)
    values : contents st' (ids ++ nodes_of items) ≡ contents st ids ++ values_of items

  push_all-PushesAll :
      (items : List (ℕ × T)) (st : Stump T) (ids : List ℕ)
      → Holds st ids
      → Distinct (nodes_of items)
      → AllFresh st ids (nodes_of items)
      → length (all_nodes st ids) + length (nodes_of items) < size_mod
      → (st' : Stump T) × PushesAll st ids items st'
  push_all-PushesAll [] st ids h d f b = (
    st,
    record {
      runs = λ rest. refl;
      holds = subst (Holds st) (sym (append-nil ids)) h;
      values = ap (contents st) (append-nil ids) ∙ sym (append-nil (contents st ids));
    },
  )
  push_all-PushesAll ((n, v) ∷ items) st ids h d f b =
      let (st', once) = emplace_back-Pushes st ids n v h f.0 (omega arith) in
      let fresh : AllFresh st' (ids ++ n ∷ []) (nodes_of items) =
        subst (λ u. AllFresh st' u (nodes_of items)) (append-nil (ids ++ n ∷ []))
          (AllFresh-step st st' ids [] n (nodes_of items)
            (subst (λ u. AllFresh st u (nodes_of items)) (sym (append-nil ids)) f.1) d.0
            once.before_begin once.end) in
      let (st'', r) = push_all-PushesAll items st' (ids ++ n ∷ []) once.holds d.1 fresh (
        omega (
          arith,
          b,
          length-append ids (n ∷ []),
          length-append ids (st.end ∷ []),
          length-append (ids ++ n ∷ []) (st'.end ∷ []),
        )) in
      let place = append_assoc ids (n ∷ []) (nodes_of items) in
      (
        st'',
        record {
          runs = λ rest. push_all-step st st' (n, some v) n _ once.runs (r.runs rest);
          holds = subst (Holds st'') place r.holds;
          values =
              ap (contents st'') (sym place)
              ∙ (r.values
                  ∙ (ap (λ u. u ++ values_of items) once.values
                      ∙ append_assoc (contents st ids) (some v ∷ []) (values_of items)));
        },
      )

  make_implementation-Holds :
      (before_begin e : ℕ)
      → before_begin ≢ e
      → (st : Stump T) × (make_implementation before_begin e ≡ some st)
        × Holds st []
        × (st.end ≡ e)
        × (st.before_begin ≡ before_begin)
  unfolding make_implementation
  make_implementation-Holds before_begin e ne =
      let (st, runs, holds, values, same_end, same_begin) =
        reset_invariant-Holds (raw_stump before_begin e) ne in
      (st, runs, holds, same_end, same_begin)

  filled :
      (before_begin e : ℕ) (items : List (ℕ × T))
      → Spread before_begin e (nodes_of items)
      → 2 + length (nodes_of items) < size_mod
      → (tmp : Stump T) × (st' : Stump T) × (make_implementation before_begin e ≡ some tmp)
        × PushesAll tmp [] items st'
  filled before_begin e items d b =
      let (tmp, made, holds, same_end, same_begin) =
        make_implementation-Holds before_begin e
          (NotIn-parts before_begin (nodes_of items) (e ∷ []) d.0).1.0 in
      let spread : Spread tmp.before_begin tmp.end (nodes_of items) =
        subst (λ f. Spread f tmp.end (nodes_of items)) (sym same_begin)
          (subst (λ f. Spread before_begin f (nodes_of items)) (sym same_end) d) in
      let (st', r) =
        push_all-PushesAll items tmp [] holds (Distinct-prefix (nodes_of items) (e ∷ []) d.1)
          (AllFresh-empty tmp (nodes_of items) spread) b in
      (tmp, st', made, r)

  -- With distinct addresses for the nodes and the two gap nodes and a node count below 2^64:
  -- where every constructor of the new values succeeds, assign leaves a container with the
  -- invariant of selfCheckIfConstructed and exactly the new values in their order, whatever it
  -- held before.
  pub assign_lem :
      (st : Stump T) (before_begin e : ℕ) (items : List (ℕ × T))
      → Spread before_begin e (nodes_of items)
      → 2 + length (nodes_of items) < size_mod
      → (st' : Stump T) × (assign st before_begin e (made_of items) ≡ some (returns st' tt))
        × Holds st' (nodes_of items)
        × (contents st' (nodes_of items) ≡ values_of items)
  unfolding assign push_all
  assign_lem st before_begin e items d b =
      let (tmp, st', made, r) = filled before_begin e items d b in
      let runs : push_all tmp (made_of items) ≡ some (some st') =
        ap (push_all tmp) (sym (append-nil (made_of items))) ∙ r.runs [] in
      (st', rw (made, runs, assign) refl, r.holds, r.values)

  -- With distinct addresses for the nodes and the two gap nodes and a node count below 2^64:
  -- where a constructor throws after any number of values was made, assign ends with the
  -- exception and leaves the container as it was.
  pub assign_unchanged :
      (st : Stump T) (before_begin e : ℕ) (items : List (ℕ × T)) (a : ℕ)
      (rest : List (ℕ × Option T))
      → Spread before_begin e (nodes_of items)
      → 2 + length (nodes_of items) < size_mod
      → assign st before_begin e (made_of items ++ (a, none) ∷ rest) ≡ some (throws st)
  unfolding assign push_all emplace_back emplace
  assign_unchanged st before_begin e items a rest d b =
      let (tmp, st', made, r) = filled before_begin e items d b in
      rw (made, r.runs ((a, none) ∷ rest), assign) refl
