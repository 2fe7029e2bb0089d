-- ===== src/RandomAccessList/Filtering.antt =====
-- random_access_list.hpp: `unique`, `remove_if`, `front` and `back` of the container. The predicates
-- are the caller's. A read of a node with no value is `none`.
pub mod Laws
pub mod Repeats
pub mod Tests
use garbage.Prelude.{◌>>=◌, ℕ, zero, suc, Bool, true, false, Option, none, some, ◌==◌}
use garbage.RandomAccessList.Stump.{Stump}
use garbage.RandomAccessList.Container.{erase}
use garbage.RandomAccessList.Iterators.{increment, decrement}

-- A loop after as many rounds as its fuel: it has ended, or goes on at an iterator.
pub data Rounds {ℓ} (T : Type ℓ) : Type ℓ where
  ended : Stump T → Rounds T
  goes_round : Stump T → ℕ → Rounds T

module _ {ℓ} {T : Type ℓ} where
  unfoldable pub front : Stump T → Option T
  front st = do first ← st.begin; st.values first

  unfoldable pub back : Stump T → Option T
  unfolding decrement
  back st = do last ← decrement st st.end; st.values last

  -- The loop of `remove_if`. The source has no step where the predicate is false.
  unfoldable pub remove_if_from : (T → Bool) → ℕ → Stump T → ℕ → Option (Rounds T)
  unfolding erase
  remove_if_from p zero st current = some (goes_round st current)
  remove_if_from p (suc fuel) st current = elim (current == st.end) [
    | true ↦ some (ended st)
    | false ↦ do
      v ← st.values current
      elim (p v) [
        | true ↦ do (st', next) ← erase st current; remove_if_from p fuel st' next
        | false ↦ remove_if_from p fuel st current
      ]
  ]

  unfoldable pub remove_if : (T → Bool) → ℕ → Stump T → Option (Rounds T)
  unfolding remove_if_from
  remove_if p fuel st = do first ← st.begin; remove_if_from p fuel st first

  -- The loop of `unique`.
  unfoldable pub unique_from : (T → T → Bool) → ℕ → Stump T → ℕ → ℕ → Option (Stump T)
  unfolding erase increment
  unique_from p zero st current checked = none
  unique_from p (suc fuel) st current checked = elim (checked == st.end) [
    | true ↦ some st
    | false ↦ do
      v ← st.values checked
      w ← st.values current
      elim (p v w) [
        | true ↦ do (st', next) ← erase st checked; unique_from p fuel st' current next
        | false ↦ do
          checked' ← increment st checked
          current' ← increment st current
          unique_from p fuel st current' checked'
      ]
  ]

  -- `unique` from `cbegin()` on.
  unfoldable pub unique_at : (T → T → Bool) → ℕ → Stump T → ℕ → Option (Stump T)
  unfolding unique_from increment
  unique_at p fuel st first = elim (first == st.end) [
    | true ↦ some st
    | false ↦ do checked ← increment st first; unique_from p fuel st first checked
  ]

  unfoldable pub unique : (T → T → Bool) → ℕ → Stump T → Option (Stump T)
  unfolding unique_at
  unique p fuel st = do first ← st.begin; unique_at p fuel st first
