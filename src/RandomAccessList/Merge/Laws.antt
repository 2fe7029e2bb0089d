-- ===== src/RandomAccessList/Merge/Laws.antt =====
-- random_access_list.hpp: what the loop of `merge_private` makes of two sorted lists.
use garbage.Prelude.{
  ◌≡◌, sym, subst, Bool, true, false, [], ◌∷◌, ◌++◌, List, Bool-cases, inl, inr, append-nil,
}
use mathlib.Core.List.{Perm, perm_middle}
use mathlib.Core.List.Perm
use garbage.RandomAccessList.Merge.{merge_nodes}

module _ {ℓ} {A : Type ℓ} where
  -- The first of a list does not come before `z`.
  abbrev pub IsHead : (A → A → Bool) → A → List A → Type 0
  IsHead comp z [] = Unit
  IsHead comp z (x ∷ xs) = comp x z ≡ false

  abbrev pub IsSorted : (A → A → Bool) → List A → Type 0
  IsSorted comp [] = Unit
  IsSorted comp (x ∷ xs) = IsHead comp x xs × IsSorted comp xs

  -- What is asked of a comparator.
  abbrev pub IsAsymmetric : (A → A → Bool) → Type ℓ
  IsAsymmetric comp = (x y : A) → comp x y ≡ true → comp y x ≡ false

  merge_nodes-IsHead :
      (comp : A → A → Bool) (z : A) (first second : List A)
      → IsHead comp z first
      → IsHead comp z second
      → IsHead comp z (merge_nodes comp first second)
  unfolding merge_nodes
  merge_nodes-IsHead comp z [] second h k = k
  merge_nodes-IsHead comp z (x ∷ first) [] h k = h
  merge_nodes-IsHead comp z (x ∷ first) (y ∷ second) h k = elim (Bool-cases (comp y x)) [
    | inl earlier ↦ rw earlier k
    | inr later ↦ rw later h
  ]

  -- The merge of two sorted lists is sorted.
  pub merge_nodes-IsSorted :
      (comp : A → A → Bool) (first second : List A)
      → IsAsymmetric comp
      → IsSorted comp first
      → IsSorted comp second
      → IsSorted comp (merge_nodes comp first second)
  unfolding merge_nodes
  merge_nodes-IsSorted comp [] second a s t = t
  merge_nodes-IsSorted comp (x ∷ first) [] a s t = s
  merge_nodes-IsSorted comp (x ∷ first) (y ∷ second) a s t =
      let from_second = merge_nodes-IsSorted comp (x ∷ first) second a s t.1 in
      let from_first = merge_nodes-IsSorted comp first (y ∷ second) a s.1 t in
      elim (Bool-cases (comp y x)) [
        | inl earlier ↦
            rw earlier
              (merge_nodes-IsHead comp y (x ∷ first) second (a y x earlier) t.0, from_second)
        | inr later ↦ rw later (merge_nodes-IsHead comp x first (y ∷ second) s.0 later, from_first)
      ]

  -- It holds the nodes of both.
  pub merge_nodes-Perm :
      (comp : A → A → Bool) (first second : List A)
      → Perm (merge_nodes comp first second) (first ++ second)
  unfolding merge_nodes
  merge_nodes-Perm comp [] second = Perm.refl second
  merge_nodes-Perm comp (x ∷ first) [] =
      subst (Perm (x ∷ first)) (sym (append-nil (x ∷ first))) (Perm.refl (x ∷ first))
  merge_nodes-Perm comp (x ∷ first) (y ∷ second) =
      let from_second = merge_nodes-Perm comp (x ∷ first) second in
      let from_first = merge_nodes-Perm comp first (y ∷ second) in
      elim (Bool-cases (comp y x)) [
        | inl earlier ↦
            rw earlier
              (Perm.trans (Perm.cons y from_second) (Perm.symm (perm_middle (x ∷ first) second)))
        | inr later ↦ rw later (Perm.cons x from_first)
      ]

  -- For an asymmetric comparator, the loop of merge_private makes one sorted list of two sorted
  -- ones, with exactly the nodes of both.
  pub merge_nodes_lem :
      (comp : A → A → Bool) (first second : List A)
      → IsAsymmetric comp
      → IsSorted comp first
      → IsSorted comp second
      → IsSorted comp (merge_nodes comp first second)
        × Perm (merge_nodes comp first second) (first ++ second)
  merge_nodes_lem comp first second a s t =
      (merge_nodes-IsSorted comp first second a s t, merge_nodes-Perm comp first second)
