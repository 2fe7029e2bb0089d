-- ===== src/LimitedScheduler/Steps.antt =====
-- Tx/PplxSchedulers/LimitedScheduler.cpp: the runs of the callers of `schedule`, of the workers and
-- of `close`, as steps in any order. A worker that waits goes on in a step at which its predicate
-- holds: that it is notified in time is not part of the model. One thread calls `close` at a time.
use garbage.Prelude.{
  ℕ, suc, ◌<◌, ◌≡◌, Bool, true, false, not, ◌||◌, [], ◌∷◌, ◌++◌, List, none, some, update,
}
use garbage.LimitedScheduler.{
  free, working, starting, state_inserted, looping, waiting, draining, running, returned, pushing,
  adding, locking, Call, Scheduler, set_state, admit, admitted, wants_thread, add_thread_locked,
  max_level_count, Place, ThreadState,
}

-- What the steps do with tasks, which have a level.
pub data Event : Type 0 where
  nothing : Event
  pushed : ℕ → ℕ → Event
  taken : ℕ → ℕ → Event

-- A worker goes to another place.
abbrev pub move_worker : Scheduler → ℕ → ℕ → Place → Scheduler
move_worker s id level place = record s { worker = update s.worker id (some (level, place)) }

abbrev pub mark_worker : Scheduler → ℕ → ThreadState → Scheduler
mark_worker s id state = record s { state_threads = set_state s.state_threads id state }

abbrev pub is_empty : List ℕ → Bool
is_empty [] = true
is_empty (x ∷ xs) = false

pub data Step : Scheduler → Event → Scheduler → Type 0 where
  calls_schedule :
      {s : Scheduler} (caller task level : ℕ)
      → admit s caller ≡ admitted level
      → Step s nothing (record s { calls = pushing level task ∷ s.calls })
  pushes :
      {s : Scheduler} (before after : List Call) (level task : ℕ)
      → s.calls ≡ before ++ pushing level task ∷ after
      → Step s (pushed level task) (record s {
        tasks = update s.tasks level (s.tasks level ++ task ∷ []);
        calls = before ++ adding level ∷ after;
      })
  wants :
      {s : Scheduler} (before after : List Call) (level : ℕ)
      → s.calls ≡ before ++ adding level ∷ after
      → wants_thread s level ≡ true
      → Step s nothing (record s { calls = before ++ locking level ∷ after })
  wants_none :
      {s : Scheduler} (before after : List Call) (level : ℕ)
      → s.calls ≡ before ++ adding level ∷ after
      → wants_thread s level ≡ false
      → Step s nothing (record s { calls = before ++ after })
  locks :
      {s : Scheduler} (before after : List Call) (level id : ℕ)
      → s.calls ≡ before ++ locking level ∷ after
      → s.worker id ≡ none
      → Step s nothing (record (add_thread_locked s level id) { calls = before ++ after })
  inserts_state :
      {s : Scheduler} (id level : ℕ)
      → s.worker id ≡ some (level, starting)
      → Step s nothing (
          move_worker
            (record s { state_threads = (id, free) ∷ s.state_threads })
            id
            level
            state_inserted)
  inserts_level :
      {s : Scheduler} (id level : ℕ)
      → s.worker id ≡ some (level, state_inserted)
      → Step s nothing (
          move_worker (record s { level_threads = (id, level) ∷ s.level_threads }) id level looping)
  returns :
      {s : Scheduler} (id level : ℕ)
      → s.worker id ≡ some (level, looping)
      → s.is_cancel ≡ true
      → Step s nothing (move_worker s id level returned)
  waits :
      {s : Scheduler} (id level : ℕ)
      → s.worker id ≡ some (level, looping)
      → s.is_cancel ≡ false
      → Step s nothing (move_worker s id level waiting)
  wakes :
      {s : Scheduler} (id level : ℕ)
      → s.worker id ≡ some (level, waiting)
      → (not (is_empty (s.tasks level)) || s.is_cancel) ≡ true
      → Step s nothing (move_worker (mark_worker s id working) id level draining)
  takes :
      {s : Scheduler} (id level task : ℕ) (rest : List ℕ)
      → s.worker id ≡ some (level, draining)
      → s.tasks level ≡ task ∷ rest
      → Step s
          (taken level task)
          (move_worker (record s { tasks = update s.tasks level rest }) id level (running task))
  finishes :
      {s : Scheduler} (id level task : ℕ)
      → s.worker id ≡ some (level, running task)
      → Step s nothing (move_worker s id level draining)
  drains :
      {s : Scheduler} (id level : ℕ)
      → s.worker id ≡ some (level, draining)
      → s.tasks level ≡ []
      → Step s nothing (move_worker (mark_worker s id free) id level looping)
  cancels :
      {s : Scheduler}
      → s.closing ≡ none
      → Step s nothing (record s { is_cancel = true; closing = some 0 })
  pops_thread :
      {s : Scheduler} (level id : ℕ) (rest : List ℕ)
      → s.closing ≡ some level
      → s.joining ≡ none
      → s.threads level ≡ id ∷ rest
      → level < max_level_count
      → Step s nothing (record s { threads = update s.threads level rest; joining = some id })
  joins :
      {s : Scheduler} (id level : ℕ)
      → s.joining ≡ some id
      → s.worker id ≡ some (level, returned)
      → Step s nothing (record s { joining = none })
  joins_next_level :
      {s : Scheduler} (level : ℕ)
      → s.closing ≡ some level
      → s.joining ≡ none
      → s.threads level ≡ []
      → level < max_level_count
      → Step s nothing (record s { closing = some (suc level) })
  closes :
      {s : Scheduler}
      → s.closing ≡ some max_level_count
      → Step s nothing (record s { is_closed = true; closing = none })

pub data Steps : Scheduler → List Event → Scheduler → Type 0 where
  done : {s : Scheduler} → Steps s [] s
  and_then :
      {s s' s'' : Scheduler} {e : Event} {es : List Event}
      → Step s e s'
      → Steps s' es s''
      → Steps s (e ∷ es) s''
