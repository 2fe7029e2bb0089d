-- ===== src/LimitedScheduler.antt =====
-- Tx/PplxSchedulers/LimitedScheduler.cpp: a scheduler with two levels of tasks and at most 32 threads
-- for each. A task and a thread are known by a number; thread ids come from the operating system.
pub mod Steps
pub mod Threads
pub mod Workers
pub mod States
pub mod Levels
pub mod Tests
use garbage.Prelude.{
  ℕ, suc, ◌+◌, ◌-◌, ◌*◌, ◌/◌, Bool, true, false, not, ◌&&◌, ◌||◌, [], ◌∷◌, ◌++◌, List, Option, none,
  some, if◌then◌else◌, ◌==◌, leb, ltb, length, update,
}

abbrev pub max_level_count : ℕ
max_level_count = 2

abbrev pub min_thread_count : ℕ
min_thread_count = 2 * max_level_count

abbrev pub max_thread_count : ℕ
max_thread_count = 64

pub data ThreadState : Type 0 where
  free : ThreadState
  working : ThreadState

-- Where a worker stands in the function of `makeThread`.
pub data Place : Type 0 where
  starting : Place
  state_inserted : Place
  looping : Place
  waiting : Place
  draining : Place
  running : ℕ → Place
  returned : Place

-- Where a call of `schedule` stands after its tests: before the push, before the tests of
-- `addThread`, and before the lock of `addThread`.
pub data Call : Type 0 where
  pushing : ℕ → ℕ → Call
  adding : ℕ → Call
  locking : ℕ → Call

-- `worker` has the level and place of every thread that was made, `closing` the level whose threads
-- `close` joins, and `joining` the thread that it has popped and waits for.
pub record Scheduler : Type 0 where
  pub tasks : ℕ → List ℕ
  pub threads : ℕ → List ℕ
  pub limits : ℕ → ℕ
  pub level_threads : List (ℕ × ℕ)
  pub state_threads : List (ℕ × ThreadState)
  pub worker : ℕ → Option (ℕ × Place)
  pub calls : List Call
  pub is_cancel : Bool
  pub closing : Option ℕ
  pub joining : Option ℕ
  pub is_closed : Bool

abbrev pub find {ℓ} : {A : Type ℓ} → List (ℕ × A) → ℕ → Option A
find [] id = none
find ((k, a) ∷ entries) id = if k == id then some a else find entries id

-- `at(id) = state`
abbrev pub set_state : List (ℕ × ThreadState) → ℕ → ThreadState → List (ℕ × ThreadState)
set_state [] id state = []
set_state ((k, old) ∷ entries) id state =
    if k == id then (k, state) ∷ entries else (k, old) ∷ set_state entries id state

abbrev pub minimum : ℕ → ℕ → ℕ
minimum a b = if ltb a b then a else b

abbrev pub maximum : ℕ → ℕ → ℕ
maximum a b = if ltb b a then a else b

-- `threadCount` of the constructor: half of the limit, rounded up.
unfoldable pub thread_count : ℕ → ℕ
thread_count limit =
    (minimum (maximum min_thread_count limit) max_thread_count + (max_level_count - 1))
    / max_level_count

-- `makeThread`
unfoldable pub make_thread : Scheduler → ℕ → ℕ → Scheduler
make_thread s level id = record s {
  threads = update s.threads level (s.threads level ++ id ∷ []);
  worker = update s.worker id (some (level, starting));
}

abbrev pub idle : ℕ → Scheduler
idle limit = record {
  tasks = λ level. [];
  threads = λ level. [];
  limits = λ level. thread_count limit;
  level_threads = [];
  state_threads = [];
  worker = λ id. none;
  calls = [];
  is_cancel = false;
  closing = none;
  joining = none;
  is_closed = false;
}

-- The constructor makes one thread for each level.
unfoldable pub new_scheduler : ℕ → ℕ → ℕ → Scheduler
unfolding make_thread
new_scheduler limit id0 id1 = make_thread (make_thread (idle limit) 0 id0) 1 id1

-- How the tests of `schedule` end: with one of its exceptions, or with the level of the task.
pub data Admission : Type 0 where
  admitted : ℕ → Admission
  closed : Admission
  too_deep : ℕ → Admission
  canceled : Admission

abbrev pub level_of_caller : Scheduler → ℕ → ℕ
level_of_caller s caller = elim (find s.level_threads caller) [ none ↦ 0 | some level ↦ level + 1 ]

unfoldable pub admit : Scheduler → ℕ → Admission
admit s caller =
    if s.is_closed
    then closed
    else (if leb max_level_count (level_of_caller s caller)
        then too_deep (level_of_caller s caller)
        else (if s.is_cancel && level_of_caller s caller == 0
            then canceled
            else admitted (level_of_caller s caller)))

-- What the search of `addThread` does with the state of a worker of the level, when `rest` is the
-- search in the others. `none`: `at` throws.
abbrev pub look_at : Option ThreadState → Option Bool → Option Bool
look_at none rest = none
look_at (some free) rest = some true
look_at (some working) rest = rest

-- The search of `addThread` for a free worker of the level.
abbrev pub has_free : List (ℕ × ℕ) → List (ℕ × ThreadState) → ℕ → Option Bool
has_free [] states level = some false
has_free ((id, l) ∷ entries) states level =
    let rest = has_free entries states level in
    if l == level then look_at (find states id) rest else rest

-- The tests of `addThread` before its lock. An exception is caught, and ends it as a test does.
unfoldable pub wants_thread : Scheduler → ℕ → Bool
wants_thread s level =
    if leb (s.limits level) (length (s.threads level))
    then false
    else (if leb (length (s.tasks level)) 1
        then false
        else elim (has_free s.level_threads s.state_threads level) [
          | none ↦ false
          | some found ↦ not found
        ])

-- `addThread` under its lock, where the new thread gets `id`.
unfoldable pub add_thread_locked : Scheduler → ℕ → ℕ → Scheduler
unfolding make_thread
add_thread_locked s level id =
    if leb (s.limits level) (length (s.threads level)) then s else make_thread s level id
