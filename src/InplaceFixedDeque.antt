-- ===== src/InplaceFixedDeque.antt =====
-- inplace_fixed_deque.hpp: the class `inplace_fixed_deque`. `cells` is `m_raw_byte_array`, one cell
-- per item: `none` is raw memory. A new value comes as what its constructor makes of it, `none` if
-- that throws. The result `none` is undefined behaviour. The arithmetic of `size_type` cannot wrap,
-- since an array of `capacity` items fits in memory.
pub mod Laws
pub mod Ends
pub mod Reading
pub mod Clearing
pub mod Assigning
pub mod Iterators
pub mod Tests
use garbage.Prelude.{
  ◌>>=◌, update, Outcome, returns, throws, ℕ, zero, suc, ◌+◌, ◌-◌, ◌%◌, Bool, true, false, [], ◌∷◌,
  List, Option, none, some, if◌then◌else◌, ltb, leb, ◌==◌, ◌&&◌,
}
use garbage.ContainersUtility.{
  CopyResult, construct_value, destroy_value, destroy, uninitialized_copy_and_rollback_if_exception,
}

pub record Deque {ℓ} (T : Type ℓ) : Type ℓ where
  pub cells : ℕ → Option T
  pub begin : ℕ
  pub end : ℕ

-- `capacity` is `item_amount`.
module _ {ℓ} {T : Type ℓ} (capacity : ℕ) where
  unfoldable pub size_internal : Deque T → ℕ
  size_internal d = if leb d.begin d.end then d.end - d.begin else (capacity - d.begin) + d.end + 1

  unfoldable pub full : Deque T → Bool
  full d = if ltb d.end d.begin then d.end + 1 == d.begin else (d.begin == 0 && d.end == capacity)

  unfoldable pub construct_at_position : Deque T → ℕ → T → Option (Deque T)
  unfolding construct_value
  construct_at_position d position value = do
    cells ← construct_value capacity d.cells position value
    some (record d { cells = cells })

  unfoldable pub destroy_by_position : Deque T → ℕ → Option (Deque T)
  unfolding destroy_value
  destroy_by_position d position = do
    cells ← destroy_value capacity d.cells position
    some (record d { cells = cells })

  -- `new_end` and `creation_position` of `push_back_internal`
  unfoldable pub end_after_push_back : Deque T → ℕ
  end_after_push_back d = if leb capacity d.end then 0 else d.end + 1

  unfoldable pub creation_position : Deque T → ℕ
  unfolding end_after_push_back
  creation_position d = if ltb (end_after_push_back d) d.begin then end_after_push_back d else d.end

  -- `push_back_internal` and `emplace_back`
  unfoldable pub push_back : Deque T → Option T → Option (Outcome (Deque T) (Unit {0}))
  unfolding full construct_at_position creation_position end_after_push_back
  push_back d made = elim (full d) [
    | true ↦ some (returns d tt)
    | false ↦ elim made [
      | none ↦ some (throws d)
      | some value ↦ do
        d' ← construct_at_position d (creation_position d) value
        some (returns (record d' { end = end_after_push_back d }) tt)
    ]
  ]

  -- `new_begin` and `new_end` of `push_front_internal`
  unfoldable pub begin_after_push_front : Deque T → ℕ
  begin_after_push_front d = if leb d.begin 0 then capacity - 1 else d.begin - 1

  unfoldable pub end_after_push_front : Deque T → ℕ
  end_after_push_front d =
      if leb d.begin 0 then (if leb d.end 0 then capacity else d.end - 1) else d.end

  -- `push_front_internal` and `emplace_front`
  unfoldable pub push_front : Deque T → Option T → Option (Outcome (Deque T) (Unit {0}))
  unfolding full construct_at_position begin_after_push_front end_after_push_front
  push_front d made = elim (full d) [
    | true ↦ some (returns d tt)
    | false ↦ elim made [
      | none ↦ some (throws d)
      | some value ↦ do
        d' ← construct_at_position d (begin_after_push_front d) value
        some (
            returns (record d' { begin = begin_after_push_front d; end = end_after_push_front d })
              tt)
    ]
  ]

  unfoldable pub empty : Deque T → Bool
  empty d = d.begin == d.end

  -- `new_end` and `destruction_position` of `pop_back`
  unfoldable pub end_after_pop_back : Deque T → ℕ
  end_after_pop_back d = if leb d.end 0 then capacity else d.end - 1

  unfoldable pub destruction_position : Deque T → ℕ
  unfolding end_after_pop_back
  destruction_position d = if ltb d.end d.begin then d.end else end_after_pop_back d

  unfoldable pub pop_back : Deque T → Option (Deque T)
  unfolding empty destroy_by_position destruction_position end_after_pop_back
  pop_back d = elim (empty d) [
    | true ↦ some d
    | false ↦ destroy_by_position (record d { end = end_after_pop_back d }) (destruction_position d)
  ]

  -- `new_begin` and `new_end` of `pop_front`
  unfoldable pub begin_after_pop_front : Deque T → ℕ
  begin_after_pop_front d = if leb (capacity - 1) d.begin then 0 else d.begin + 1

  unfoldable pub end_after_pop_front : Deque T → ℕ
  end_after_pop_front d =
      if leb (capacity - 1) d.begin then (if leb capacity d.end then 0 else d.end + 1) else d.end

  unfoldable pub pop_front : Deque T → Option (Deque T)
  unfolding empty destroy_by_position begin_after_pop_front end_after_pop_front
  pop_front d = elim (empty d) [
    | true ↦ some d
    | false ↦
        destroy_by_position
          (record d { begin = begin_after_pop_front d; end = end_after_pop_front d }) d.begin
  ]

  -- The functor runs over [begin, end), or over [begin, capacity) and [0, end].
  unfoldable pub clear : Deque T → Option (Deque T)
  unfolding destroy
  clear d =
      if leb d.begin d.end
      then (do
        cells ← destroy capacity d.cells d.begin (d.end - d.begin)
        some (record { cells = cells; begin = 0; end = 0 }))
      else (do
        upper ← destroy capacity d.cells d.begin (capacity - d.begin)
        cells ← destroy capacity upper 0 (d.end + 1)
        some (record { cells = cells; begin = 0; end = 0 }))

  -- What `assign_internal` does with the result of the copy. An exception leaves it cleared.
  abbrev pub after_copy : Deque T → Outcome (ℕ → Option T) CopyResult → Outcome (Deque T) (Unit {0})
  after_copy d (throws cells) = throws (record d { cells = cells })
  after_copy d (returns cells result) =
      returns (record { cells = cells; begin = 0; end = result.sucessfull_inserted_items_amount })
        tt

  -- `assign_internal`, which the constructors from a range, `assign` and `operator=` call.
  unfoldable pub assign : Deque T → List (Option T) → Option (Outcome (Deque T) (Unit {0}))
  unfolding clear uninitialized_copy_and_rollback_if_exception
  assign d source = do
    d' ← clear d
    outcome ← uninitialized_copy_and_rollback_if_exception capacity d'.cells source 0 capacity
    some (after_copy d' outcome)

  -- `operator[]`
  unfoldable pub subscript : Deque T → ℕ → Option T
  subscript d index =
      if leb d.begin d.end
      then d.cells (index + d.begin)
      else d.cells ((index + d.begin) % capacity)

  abbrev pub front : Deque T → Option T
  front d = subscript d 0

  abbrev pub back : Deque T → Option T
  back d = subscript d (size_internal d - 1)
