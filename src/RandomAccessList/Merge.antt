-- ===== src/RandomAccessList/Merge.antt =====
-- random_access_list.hpp: the loop of `merge_private` over the nodes of two lists. The comparator is
-- the caller's.
pub mod Laws
use garbage.Prelude.{Bool, true, false, [], ◌∷◌, List, if◌then◌else◌}

module _ {ℓ} {A : Type ℓ} (comp : A → A → Bool) where
  -- The list that the loop pushes to the end of `nodesMerged`.
  unfoldable pub merge_nodes : List A → List A → List A
  merge_nodes [] second = second
  merge_nodes (x ∷ first) [] = x ∷ first
  merge_nodes (x ∷ first) (y ∷ second) =
      let from_second = merge_nodes (x ∷ first) second in
      let from_first = merge_nodes first (y ∷ second) in
      if comp y x then y ∷ from_second else x ∷ from_first
