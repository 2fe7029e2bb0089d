-- ===== src/RandomAccessList/Moving/Merging.antt =====
-- random_access_list.hpp: `merge` of two sorted containers.
use garbage.Prelude.{
  ℕ, ◌+◌, ◌*◌, ◌≤◌, ◌<◌, ◌≡◌, refl, sym, subst, ap, ap₂, ◌∙◌, Bool, [], ◌∷◌, ◌++◌, List, Option,
  some, false, arith, NotIn, NotIn-parts, Distinct, Distinct-prefix, Distinct-suffix, length, map,
  size_mod, length-Perm,
}
use mathlib.Core.List.{Perm, map-append}
use mathlib.Core.List.Perm
use garbage.RandomAccessList.Stump.{Stump}
use garbage.RandomAccessList.Stump.Laws.{all_nodes, Holds}
use garbage.RandomAccessList.Container.Insertion.{contents}
use garbage.RandomAccessList.Container.RangeInsertion.{NoneIn}
use garbage.RandomAccessList.Merge.{merge_nodes}
use garbage.RandomAccessList.Merge.Laws.{IsSorted, IsAsymmetric, merge_nodes_lem}
use garbage.RandomAccessList.Moving.{carry, merge, adopt}
use garbage.RandomAccessList.Moving.Laws.{
  Spread, Spread-Perm, move_all_nodes-MovesAll, insert_at_begin-Holds,
}
use garbage.RandomAccessList.Moving.Splicing.{carry_nodes, carry_kept}

NoneIn-nil : (ns : List ℕ) → NoneIn ns []
NoneIn-nil [] = tt
NoneIn-nil (n ∷ ns) = (tt, NoneIn-nil ns)

NoneIn-cons :
    (ns : List ℕ) (x : ℕ) (ids : List ℕ) → NotIn x ns → NoneIn ns ids → NoneIn ns (x ∷ ids)
NoneIn-cons [] x ids n k = tt
NoneIn-cons (m ∷ ns) x ids n k = (((λ e. n.0 (sym e)), k.0), NoneIn-cons ns x ids n.1 k.1)

NoneIn-append : (ids ns : List ℕ) → Distinct (ids ++ ns) → NoneIn ns ids
NoneIn-append [] ns d = NoneIn-nil ns
NoneIn-append (x ∷ ids) ns d =
    NoneIn-cons ns x ids (NotIn-parts x ids ns d.0).1 (NoneIn-append ids ns d.1)

module _ {ℓ} {T : Type ℓ} where
  -- The order of nodes by their values.
  abbrev pub by_values : (Option T → Option T → Bool) → (ℕ → Option T) → ℕ → ℕ → Bool
  by_values comp values a b = comp (values a) (values b)

  pub IsSorted-map :
      (comp : Option T → Option T → Bool) (values : ℕ → Option T) (nodes : List ℕ)
      → IsSorted (by_values comp values) nodes
      → IsSorted comp (map values nodes)
  IsSorted-map comp values [] s = tt
  IsSorted-map comp values (x ∷ []) s = s
  IsSorted-map comp values (x ∷ y ∷ nodes) s = (s.0, IsSorted-map comp values (y ∷ nodes) s.1)

  IsSorted-unmap :
      (comp : Option T → Option T → Bool) (values : ℕ → Option T) (nodes : List ℕ)
      → IsSorted comp (map values nodes)
      → IsSorted (by_values comp values) nodes
  IsSorted-unmap comp values [] s = tt
  IsSorted-unmap comp values (x ∷ []) s = s
  IsSorted-unmap comp values (x ∷ y ∷ nodes) s = (s.0, IsSorted-unmap comp values (y ∷ nodes) s.1)

  -- For two containers with the invariant of selfCheckIfConstructed and no node in common, fewer
  -- than 2^64 nodes together, two rounds of fuel for each node, and an asymmetric comparator by
  -- which the values of both are in order: merge ends with exactly the values of both, in order,
  -- in this container and the other empty, and keeps both invariants.
  pub merge_lem :
      (comp : Option T → Option T → Bool) (fuel : ℕ) (st other : Stump T) (ids others : List ℕ)
      → IsAsymmetric comp
      → Holds st ids
      → Holds other others
      → Spread st.before_begin st.end (ids ++ others)
      → 2 + length (ids ++ others) < size_mod
      → 2 * length (all_nodes st ids) ≤ fuel
      → 2 * length (all_nodes other others) ≤ fuel
      → IsSorted comp (contents st ids)
      → IsSorted comp (contents other others)
      → (st' : Stump T) × (other' : Stump T) × (merged : List ℕ) × (merge comp fuel false st other
          ≡ some (st', other'))
        × Holds st' merged
        × Holds other' []
        × IsSorted comp (contents st' merged)
        × Perm (contents st' merged) (contents st ids ++ contents other others)
  unfolding merge
  merge_lem comp fuel st other ids others a h k d b enough enough_other s t =
      let (st1, m) = move_all_nodes-MovesAll fuel st ids h enough in
      let (other1, n) = move_all_nodes-MovesAll fuel other others k enough_other in
      let both = carry st1.values other1.values others in
      let all = Distinct-prefix (ids ++ others) (st.end ∷ []) d.1 in
      let own : map both ids ≡ contents st ids =
        carry_kept st1.values other1.values others ids (NoneIn-append ids others all)
        ∙ ap (λ v. map v ids) m.values in
      let new : map both others ≡ contents other others =
        carry_nodes st1.values other1.values others (Distinct-suffix ids others all)
        ∙ ap (λ v. map v others) n.values in
      let merged = merge_nodes (by_values comp both) ids others in
      let (sorted, perm) =
        merge_nodes_lem (by_values comp both) ids others (λ x y. a (both x) (both y))
          (IsSorted-unmap comp both ids (subst (IsSorted comp) (sym own) s))
          (IsSorted-unmap comp both others (subst (IsSorted comp) (sym new) t)) in
      let (st', runs, holds, values) =
        insert_at_begin-Holds (adopt st1 other1 others) merged
          (record { tree = m.holds.tree; begins = m.holds.begins })
          (subst (λ e. Spread st1.before_begin e merged) (sym m.end)
            (subst (λ f. Spread f st.end merged) (sym m.before_begin)
              (Spread-Perm st.before_begin st.end _ merged (Perm.symm perm) d)))
          (omega (arith, length-Perm merged (ids ++ others) perm)) in
      (
        st',
        other1,
        merged,
        rw (m.runs, n.runs, runs, merge) refl,
        holds,
        n.holds,
        subst (λ v. IsSorted comp (map v merged)) (sym values)
            (IsSorted-map comp both merged sorted),
        subst (λ v. Perm (map v merged) (contents st ids ++ contents other others)) (sym values)
            (subst (Perm (map both merged)) (map-append both ids others ∙ ap₂ ◌++◌ own new)
              (Perm.map both perm)),
      )
