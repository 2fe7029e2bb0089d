-- ===== src/ContainersUtility.antt =====
-- containers_utility.hpp: construction and destruction of values in raw memory. Memory is an array
-- of `capacity` cells: `none` is raw. To construct over a value, to destroy raw memory, and to leave the
-- array are undefined. The constructor is the caller's: a source value comes as what its copy
-- constructor makes of it, `none` if that throws.
pub mod Laws
pub mod Loop
pub mod Copies
pub mod Tests
use garbage.Prelude.{
  ◌>>=◌, update, Outcome, returns, throws, ℕ, zero, suc, ◌+◌, ◌-◌, Bool, true, false, [], ◌∷◌, List,
  Option, none, some, if◌then◌else◌, ltb, ◌==◌,
}

-- `uninitialized_copy_result_t`
pub record CopyResult : Type 0 where
  pub unitialized_iterator : ℕ
  pub sucessfull_inserted_items_amount : ℕ
  pub transaction_fully_successful : Bool

module _ {ℓ} {T : Type ℓ} (capacity : ℕ) where
  -- `new (p) value_type(…)`
  unfoldable pub construct_value : (ℕ → Option T) → ℕ → T → Option (ℕ → Option T)
  construct_value cells p v = elim (ltb p capacity) [
    | true ↦ elim (cells p) [ none ↦ some (update cells p (some v)) | some w ↦ none ]
    | false ↦ none
  ]

  unfoldable pub destroy_value : (ℕ → Option T) → ℕ → Option (ℕ → Option T)
  destroy_value cells p = elim (ltb p capacity) [
    | true ↦ elim (cells p) [ none ↦ none | some w ↦ some (update cells p none) ]
    | false ↦ none
  ]

  -- `destroy` and `for_each` with a destroying functor, from `begin` on, `n` values.
  unfoldable pub destroy : (ℕ → Option T) → ℕ → ℕ → Option (ℕ → Option T)
  unfolding destroy_value
  destroy cells begin zero = some cells
  destroy cells begin (suc n) = do cells' ← destroy_value cells begin; destroy cells' (suc begin) n

  -- `rollback` of the `n` values from `begin` on: by reverse iterators, from the last to the first.
  unfoldable pub rollback : (ℕ → Option T) → ℕ → ℕ → Option (ℕ → Option T)
  unfolding destroy_value
  rollback cells begin zero = some cells
  rollback cells begin (suc n) = do
    cells' ← destroy_value cells (begin + n)
    rollback cells' begin n

  -- The loop, with `amount` values made so far from `saved` on.
  unfoldable pub uninitialized_copy_from :
      (ℕ → Option T) → List (Option T) → ℕ → ℕ → ℕ → Option (Outcome (ℕ → Option T) CopyResult)
  unfolding construct_value rollback
  uninitialized_copy_from cells [] saved amount end = some (
      returns cells (record {
        unitialized_iterator = saved + amount;
        sucessfull_inserted_items_amount = amount;
        transaction_fully_successful = true;
      }))
  uninitialized_copy_from cells (made ∷ source) saved amount end = elim (saved + amount == end) [
    | true ↦ some (
        returns cells (record {
          unitialized_iterator = saved + amount;
          sucessfull_inserted_items_amount = amount;
          transaction_fully_successful = false;
        }))
    | false ↦ elim made [
      | none ↦ do cells' ← rollback cells saved amount; some (throws cells')
      | some v ↦ do
        cells' ← construct_value cells (saved + amount) v
        uninitialized_copy_from cells' source saved (suc amount) end
    ]
  ]

  unfoldable pub uninitialized_copy_and_rollback_if_exception :
      (ℕ → Option T) → List (Option T) → ℕ → ℕ → Option (Outcome (ℕ → Option T) CopyResult)
  unfolding uninitialized_copy_from
  uninitialized_copy_and_rollback_if_exception cells source begin end =
      uninitialized_copy_from cells source begin 0 end

  -- What the `_or_overflow` variant does after the copy. A source too long leaves nothing there.
  unfoldable pub settle_overflow :
      ℕ → ℕ → Outcome (ℕ → Option T) CopyResult → Option (Outcome (ℕ → Option T) CopyResult)
  unfolding rollback
  settle_overflow begin end (throws cells) = some (throws cells)
  settle_overflow begin end (returns cells result) = elim result.transaction_fully_successful [
    | true ↦ some (returns cells result)
    | false ↦ do
      cells' ← rollback cells begin (end - begin)
      some (
          returns cells' (record {
            unitialized_iterator = begin;
            sucessfull_inserted_items_amount = 0;
            transaction_fully_successful = false;
          }))
  ]

  unfoldable pub uninitialized_copy_and_rollback_if_exception_or_overflow :
      (ℕ → Option T) → List (Option T) → ℕ → ℕ → Option (Outcome (ℕ → Option T) CopyResult)
  unfolding uninitialized_copy_and_rollback_if_exception settle_overflow
  uninitialized_copy_and_rollback_if_exception_or_overflow cells source begin end = do
    outcome ← uninitialized_copy_and_rollback_if_exception cells source begin end
    settle_overflow begin end outcome
