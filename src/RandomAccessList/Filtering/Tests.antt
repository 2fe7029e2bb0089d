-- ===== src/RandomAccessList/Filtering/Tests.antt =====
-- random_access_list.hpp: `unique` and `remove_if` at two values.
use garbage.Prelude.{ltb, ℕ, ◌≡◌, refl, Bool, [], ◌∷◌, List, some, arith, ◌==◌, map, ◌+◌}
use garbage.RandomAccessList.Stump.{Stump}
use garbage.RandomAccessList.Stump.Laws.{Holds}
use garbage.RandomAccessList.Container.Insertion.{contents}
use garbage.RandomAccessList.Filtering.{goes_round, remove_if, unique}
use garbage.RandomAccessList.Filtering.Laws.{remove_if-GoesRound}
use garbage.RandomAccessList.Filtering.Repeats.{without_repeats, unique_lem}
use garbage.RandomAccessList.Tests.{two_values, two_values-Holds}

abbrev same_tens : ℕ → ℕ → Bool
same_tens a b = ltb a (b + 20)

unique_lem_example :
    (st : Stump ℕ) × (kept : List ℕ) × (unique same_tens 3 two_values ≡ some st)
    × Holds st kept
    × (contents st kept ≡ map some (without_repeats same_tens (50 ∷ 60 ∷ [])))
unique_lem_example =
    unique_lem same_tens 3 two_values (5 ∷ 6 ∷ []) (50 ∷ 60 ∷ []) two_values-Holds refl
      (omega arith)

-- The second of two values goes, since it is not 20 more than the first.
kept_values : without_repeats same_tens (50 ∷ 60 ∷ []) ≡ 50 ∷ []
kept_values = refl

remove_if-GoesRound_example :
    (st : Stump ℕ) × (ids : List ℕ) × (current : ℕ) × (remove_if (λ v. v == 50) 9 two_values
      ≡ some (goes_round st current))
    × Holds st ids
remove_if-GoesRound_example =
    remove_if-GoesRound (λ v. v == 50) 9 two_values (5 ∷ 6 ∷ []) (50 ∷ []) 60 [] two_values-Holds
      refl refl
