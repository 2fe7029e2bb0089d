-- ===== src/RandomAccessList/Moving/Splicing.antt =====
-- random_access_list.hpp: `splice` and `merge` on the sequences of values of both containers.
use garbage.Prelude.{
  ℕ, ◌+◌, ◌*◌, ◌≤◌, ◌<◌, ◌≡◌, refl, sym, subst, ap, ap₂, ◌∙◌, false, [], ◌∷◌, ◌++◌, List, Option,
  some, arith, append-nil, Distinct, Distinct-prefix, Distinct-suffix, length, map, update,
  size_mod,
}
use mathlib.Core.List.{map-append}
use garbage.RandomAccessList.Stump.{Stump}
use garbage.RandomAccessList.Stump.Laws.{first_or, all_nodes, Holds}
use garbage.RandomAccessList.Stump.Ranges.{delete_range-DeletesRange}
use garbage.RandomAccessList.Container.{insert_nodes_from_list_and_return_first_inserted}
use garbage.RandomAccessList.Container.Insertion.{
  contents, AllFresh, insert_nodes-InsertsAll, map-update,
}
use garbage.RandomAccessList.Container.RangeInsertion.{
  NoneIn, AllFresh-NoneIn, same_fresh, returns_first,
}
use garbage.RandomAccessList.Moving.{carry, adopt, splice_all, splice_range, splice_from}
use garbage.RandomAccessList.Moving.Laws.{move_all_nodes-MovesAll}

module _ {ℓ} {T : Type ℓ} where
  pub carry_nodes :
      (values from : ℕ → Option T) (nodes : List ℕ)
      → Distinct nodes
      → map (carry values from nodes) nodes ≡ map from nodes
  carry_nodes values from [] d = refl
  carry_nodes values from (n ∷ ns) d =
      let here : update (carry values from ns) n (from n) n ≡ from n = ground arith in
      ap₂ ◌∷◌ here
        (map-update (carry values from ns) n (from n) ns d.0 ∙ carry_nodes values from ns d.1)

  pub carry_kept :
      (values from : ℕ → Option T) (nodes ids : List ℕ)
      → NoneIn nodes ids
      → map (carry values from nodes) ids ≡ map values ids
  carry_kept values from [] ids f = refl
  carry_kept values from (n ∷ ns) ids f =
      map-update (carry values from ns) n (from n) ids f.0 ∙ carry_kept values from ns ids f.1

  pub record Adopts (st other : Stump T) (pre nodes post : List ℕ) (st' : Stump T) : Type ℓ where
    pub runs :
        insert_nodes_from_list_and_return_first_inserted
          (adopt st other nodes)
          nodes
          (first_or post st.end)
        ≡ some (st', first_or (nodes ++ post) st.end)
    pub holds : Holds st' (pre ++ nodes ++ post)
    pub values :
        contents st' (pre ++ nodes ++ post)
        ≡ contents st pre ++ contents other nodes ++ contents st post

  -- Nodes of another container go in before the first of `post` with their values.
  adopt-Adopts :
      (st other : Stump T) (pre nodes post : List ℕ)
      → Holds st (pre ++ post)
      → Distinct nodes
      → AllFresh st (pre ++ post) nodes
      → length (all_nodes st (pre ++ post)) + length nodes < size_mod
      → (st' : Stump T) × Adopts st other pre nodes post st'
  adopt-Adopts st other pre nodes post h d f b =
      let both = carry st.values other.values nodes in
      let (st', r) =
        insert_nodes-InsertsAll nodes (adopt st other nodes) pre post
          (record { tree = h.tree; begins = h.begins }) d (same_fresh st both (pre ++ post) _ f)
          b in
      let apart = AllFresh-NoneIn st pre post nodes f in
      (
        st',
        record {
          runs = returns_first _ st' nodes post st.end r.runs;
          holds = r.holds;
          values =
              ap (λ v. map v (pre ++ nodes ++ post)) r.values
              ∙ (map-append _ (pre ++ nodes) post
                  ∙ ap₂ ◌++◌
                      (map-append _ pre nodes
                        ∙ ap₂ ◌++◌ (carry_kept st.values other.values nodes pre apart.0)
                            (carry_nodes st.values other.values nodes d))
                      (carry_kept st.values other.values nodes post apart.1));
        },
      )

  -- For two containers with the invariant of selfCheckIfConstructed and no node in common, a node
  -- count that stays below 2^64, and two rounds of fuel for each node of the other: splice of the
  -- whole other container moves its values, in their order, before the position, keeps this
  -- container's values, leaves the other empty, and keeps both invariants.
  pub splice_all_lem :
      (fuel : ℕ) (st other : Stump T) (pre post ids : List ℕ)
      → Holds st (pre ++ post)
      → Holds other ids
      → AllFresh st (pre ++ post) ids
      → length (all_nodes st (pre ++ post)) + length ids < size_mod
      → 2 * length (all_nodes other ids) ≤ fuel
      → (st' : Stump T) × (other' : Stump T) × (splice_all fuel st (first_or post st.end) other
          ≡ some (st', other'))
        × Holds st' (pre ++ ids ++ post)
        × Holds other' []
        × (contents st' (pre ++ ids ++ post)
            ≡ contents st pre ++ contents other ids ++ contents st post)
  unfolding splice_all
  splice_all_lem fuel st other pre post ids h k f b enough =
      let (other', m) = move_all_nodes-MovesAll fuel other ids k enough in
      let (st', a) =
        adopt-Adopts st other pre ids post h
          (Distinct-prefix ids (other.end ∷ []) k.tree.distinct.1) f b in
      (st', other', rw (m.runs, a.runs, splice_all) refl, a.holds, m.holds, a.values)

  -- For two containers with the invariant of selfCheckIfConstructed and no node in common, a node
  -- count that stays below 2^64, and fuel for the nodes of the range: splice of a range moves
  -- exactly its values, in their order, before the position, and keeps all others of both
  -- containers and both invariants.
  pub splice_range_lem :
      (fuel : ℕ) (st other : Stump T) (pre post other_pre mid other_post : List ℕ)
      → Holds st (pre ++ post)
      → Holds other (other_pre ++ (mid ++ other_post))
      → AllFresh st (pre ++ post) mid
      → length (all_nodes st (pre ++ post)) + length mid < size_mod
      → length mid < fuel
      → (st' : Stump T) × (other' : Stump T) × (splice_range fuel st
            (first_or post st.end)
            other
            (first_or (mid ++ other_post) other.end)
            (first_or other_post other.end)
          ≡ some (st', other'))
        × Holds st' (pre ++ mid ++ post)
        × Holds other' (other_pre ++ other_post)
        × (contents st' (pre ++ mid ++ post)
            ≡ contents st pre ++ contents other mid ++ contents st post)
        × (contents other' (other_pre ++ other_post)
            ≡ contents other other_pre ++ contents other other_post)
  unfolding splice_range
  splice_range_lem fuel st other pre post other_pre mid other_post h k f b enough =
      let nodes =
        Distinct-prefix (other_pre ++ (mid ++ other_post)) (other.end ∷ []) k.tree.distinct.1 in
      let apart = Distinct-prefix mid other_post (Distinct-suffix other_pre _ nodes) in
      let (other', m) =
        delete_range-DeletesRange fuel other other_pre mid other_post false k enough in
      let (st', a) = adopt-Adopts st other pre mid post h apart f b in
      (
        st',
        other',
        rw (m.runs, a.runs, splice_range) refl,
        a.holds,
        m.holds,
        a.values,
        ap (λ v. map v (other_pre ++ other_post)) (m.moved refl)
            ∙ map-append other.values other_pre other_post,
      )

  -- For two containers with the invariant of selfCheckIfConstructed and no node in common, a node
  -- count that stays below 2^64, and fuel for the nodes: splice at a single iterator moves its
  -- value and every value after it out of the other container.
  pub splice_from_lem :
      (fuel : ℕ) (st other : Stump T) (pre post other_pre : List ℕ) (it : ℕ) (rest : List ℕ)
      → Holds st (pre ++ post)
      → Holds other (other_pre ++ it ∷ rest)
      → AllFresh st (pre ++ post) (it ∷ rest)
      → length (all_nodes st (pre ++ post)) + length (it ∷ rest) < size_mod
      → length (it ∷ rest) < fuel
      → (st' : Stump T) × (other' : Stump T) × (splice_from fuel st (first_or post st.end) other it
          ≡ some (st', other'))
        × Holds st' (pre ++ it ∷ rest ++ post)
        × Holds other' other_pre
        × (contents st' (pre ++ it ∷ rest ++ post)
            ≡ contents st pre ++ contents other (it ∷ rest) ++ contents st post)
        × (contents other' other_pre ≡ contents other other_pre)
  unfolding splice_from
  splice_from_lem fuel st other pre post other_pre it rest h k f b enough =
      let (st', other', runs, holds, kept, values, others) =
        splice_range_lem fuel st other pre post other_pre (it ∷ rest) [] h
          (subst (λ u. Holds other (other_pre ++ u)) (sym (append-nil (it ∷ rest))) k) f b enough in
      (
        st',
        other',
        runs,
        holds,
        subst (Holds other') (append-nil other_pre) kept,
        values,
        ap (contents other') (sym (append-nil other_pre)) ∙ (others ∙ append-nil _),
      )
