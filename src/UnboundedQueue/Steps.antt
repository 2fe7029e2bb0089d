-- ===== src/UnboundedQueue/Steps.antt =====
-- UnboundedQueue.hpp: the threads that share a queue, as a step relation. A step is one critical
-- section, or a wakeup that no notification caused.
use garbage.Prelude.{ℕ, ◌+◌, ◌-◌, ◌<◌, ◌≡◌, false, [], ◌∷◌, List, some, length, ◌==◌, if◌then◌else◌}
use garbage.UnboundedQueue.{
  Queue, Reply, popped, raised, blocked, Move, close, push_front_all, push_back_all, clear,
  wait_and_pop, pop,
}

-- What a step does to the data: put values at an end, take some, drop all, or nothing.
pub data Event {ℓ} (T : Type ℓ) : Type ℓ where
  puts_front : List T → Event T
  puts_back : List T → Event T
  takes : List T → Event T
  drops : Event T
  nothing : Event T

module _ {ℓ} {T : Type ℓ} where
  abbrev pub event_of : Reply T → Event T
  event_of (popped xs) = takes xs
  event_of (raised e) = nothing
  event_of blocked = nothing

  -- What a push has done, by the numbers of values before and after it.
  abbrev pub if_changed : ℕ → ℕ → Event T → Event T
  if_changed before after e = if before == after then nothing else e

  -- Threads that sleep or are awake are inside `wait_and_pop`, or inside a timed wait.
  pub data Step : Queue T → Event T → Queue T → Type ℓ where
    pushes_front :
        {q : Queue T} (xs : List T)
        → Step q
            (if_changed (length q.queue) (length (push_front_all q xs).queue) (puts_front xs))
            (push_front_all q xs)
    pushes_back :
        {q : Queue T} (xs : List T)
        → Step q
            (if_changed (length q.queue) (length (push_back_all q xs).queue) (puts_back xs))
            (push_back_all q xs)
    closes : {q : Queue T} → Step q nothing (close q)
    clears : {q : Queue T} → Step q drops (clear q)
    enters_pop :
        {q q' : Queue T} {r : Reply T} (m : Move) → pop q m ≡ some (q', r) → Step q (event_of r) q'
    enters_wait :
        {q q' : Queue T} {r : Reply T} (m : Move)
        → wait_and_pop q m ≡ some (q', r)
        → Step q (event_of r) q'
    resumes :
        {q q' : Queue T} {r : Reply T} (m : Move)
        → 0 < q.awake
        → wait_and_pop (record q { awake = q.awake - 1 }) m ≡ some (q', r)
        → Step q (event_of r) q'
    times_out_asleep :
        {q q' : Queue T} {r : Reply T} (m : Move)
        → 0 < q.sleeping
        → pop (record q { sleeping = q.sleeping - 1 }) m ≡ some (q', r)
        → Step q (event_of r) q'
    times_out_awake :
        {q q' : Queue T} {r : Reply T} (m : Move)
        → 0 < q.awake
        → pop (record q { awake = q.awake - 1 }) m ≡ some (q', r)
        → Step q (event_of r) q'
    wakes_spuriously :
        {q : Queue T}
        → 0 < q.sleeping
        → Step q nothing (record q { sleeping = q.sleeping - 1; awake = q.awake + 1 })

  pub data Steps : Queue T → List (Event T) → Queue T → Type ℓ where
    done : {q : Queue T} → Steps q [] q
    then :
        {q q' q'' : Queue T} {e : Event T} {es : List (Event T)}
        → Step q e q'
        → Steps q' es q''
        → Steps q (e ∷ es) q''

  -- The state after the constructor
  abbrev pub new_queue : Queue T
  new_queue = record { queue = []; closed = false; sleeping = 0; awake = 0 }
