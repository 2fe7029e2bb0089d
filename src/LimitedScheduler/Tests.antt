-- ===== src/LimitedScheduler/Tests.antt =====
-- Tx/PplxSchedulers/LimitedScheduler.cpp: the laws at a run in which a thread from outside schedules
-- the task 7, and the worker 10 takes it.
use garbage.Prelude.{true, ◌≤◌, ◌≡◌, refl, [], ◌∷◌, List, length, update}
use garbage.LimitedScheduler.{
  free, working, state_inserted, looping, waiting, draining, running, adding, Scheduler,
  thread_count, make_thread, new_scheduler, admit,
}
use garbage.LimitedScheduler.Steps.{
  Event, nothing, pushed, taken, calls_schedule, pushes, inserts_state, inserts_level, waits, wakes,
  takes, Steps, done, and_then, move_worker, mark_worker,
}
use garbage.LimitedScheduler.Workers.{has, Steps-thread_count}
use garbage.LimitedScheduler.Levels.{InArrays, Steps-InArrays}

abbrev fresh : Scheduler
fresh = new_scheduler 6 10 11

abbrev scheduled : Scheduler
scheduled = record fresh { tasks = update fresh.tasks 0 (7 ∷ []); calls = adding 0 ∷ [] }

abbrev with_state : Scheduler
with_state =
    move_worker (record scheduled { state_threads = (10, free) ∷ scheduled.state_threads }) 10 0
      state_inserted

abbrev with_level : Scheduler
with_level =
    move_worker (record with_state { level_threads = (10, 0) ∷ with_state.level_threads }) 10 0
      looping

abbrev awake : Scheduler
awake = move_worker (mark_worker (move_worker with_level 10 0 waiting) 10 working) 10 0 draining

abbrev at_work : Scheduler
at_work = move_worker (record awake { tasks = update awake.tasks 0 [] }) 10 0 (running 7)

abbrev events : List Event
events = nothing ∷ pushed 0 7 ∷ nothing ∷ nothing ∷ nothing ∷ nothing ∷ taken 0 7 ∷ []

run : Steps fresh events at_work
unfolding new_scheduler make_thread admit
run = and_then (calls_schedule 99 7 0 refl) (
    and_then (pushes [] [] 0 7 refl) (
      and_then (inserts_state 10 0 refl) (
        and_then (inserts_level 10 0 refl) (
          and_then (waits 10 0 refl refl)
            (and_then (wakes 10 0 refl refl) (and_then (takes 10 0 7 [] refl refl) done))))))

Steps-thread_count_example :
    (has 10 (at_work.threads 0) ≡ true)
    × (length (at_work.threads 0) ≤ thread_count 6)
    × (thread_count 6 ≤ 32)
unfolding new_scheduler make_thread
Steps-thread_count_example =
    Steps-thread_count 6 10 11 10 0 (running 7) at_work events run refl refl

Steps-InArrays_example : InArrays at_work
Steps-InArrays_example = Steps-InArrays 6 10 11 at_work events run
