-- ===== src/UnboundedQueue/Waking.antt =====
-- UnboundedQueue.hpp: the threads that wait for data, and those that a push or a pop wakes.
use garbage.Prelude.{
  ℕ, zero, suc, ◌+◌, ◌-◌, ◌<◌, ◌≡◌, refl, sym, ap₂, subst, Bool, true, false, [], ◌∷◌, ◌++◌, List,
  Option, none, some, arith,
}
use garbage.UnboundedQueue.{
  queue_of, Queue, Reply, popped, goes_on, Move, the_front, all_data, move_functor, notify_one,
  wake_one, notify_all, close, push_front_all, push_back_all, clear, wait_and_pop, pop,
  move_data_from_queue_front, move_all_data_from_queue, wait_and_pop_internal, exception_safety,
  test_push_and_throw_if_clossed, wait_for_data_push_to_queue,
  right_now_throw_timeout_exception_if_no_exist_data_at_queue,
}
use garbage.UnboundedQueue.Steps.{
  Event, Step, pushes_front, pushes_back, closes, clears, enters_pop, enters_wait, resumes,
  times_out_asleep, times_out_awake, wakes_spuriously, Steps, done, then, new_queue,
}
use garbage.UnboundedQueue.Fifo.{exception_safety-data}

-- Nobody sleeps if the queue is closed.
abbrev Quiet : Bool → ℕ → Type 0
Quiet false n = Unit
Quiet true zero = Unit
Quiet true (suc n) = ⊥

Quiet-less : (closed : Bool) (n : ℕ) → Quiet closed n → 0 < n → Quiet closed (n - 1)
Quiet-less false n k b = tt
Quiet-less true zero k b = absurd (omega arith)
Quiet-less true (suc n) k b = absurd k

module _ {ℓ} {T : Type ℓ} where
  -- While there are data, sleepers imply a thread on its way. Nobody sleeps on a closed queue.
  abbrev Awaited : List T → Bool → ℕ → ℕ → Type 0
  Awaited xs closed zero awake = Unit
  Awaited xs true (suc n) awake = ⊥
  Awaited [] false (suc n) awake = Unit
  Awaited (x ∷ xs) false (suc n) awake = 0 < awake

  abbrev pub NoLostWakeup : Queue T → Type 0
  NoLostWakeup q = Awaited q.queue q.closed q.sleeping q.awake

Awaited-no_data {ℓ} :
    (T : Type ℓ) (closed : Bool) (n awake : ℕ) → Quiet closed n → Awaited {T = T} [] closed n awake
Awaited-no_data T closed zero awake k = tt
Awaited-no_data T false (suc n) awake k = tt
Awaited-no_data T true (suc n) awake k = k

module _ {ℓ} {T : Type ℓ} where
  Awaited-Quiet :
      (xs : List T) (closed : Bool) (n awake : ℕ) → Awaited xs closed n awake → Quiet closed n
  Awaited-Quiet xs false n awake k = tt
  Awaited-Quiet xs true zero awake k = tt
  Awaited-Quiet xs true (suc n) awake k = k

  Awaited-awake : (xs : List T) (n awake : ℕ) → 0 < awake → Awaited xs false n awake
  Awaited-awake xs zero awake b = tt
  Awaited-awake [] (suc n) awake b = tt
  Awaited-awake (x ∷ xs) (suc n) awake b = b

  Awaited-closed : (xs : List T) (n awake : ℕ) → Quiet true n → Awaited xs true n awake
  Awaited-closed xs zero awake k = tt
  Awaited-closed xs (suc n) awake k = k

  wake_one-NoLostWakeup :
      (xs : List T) (n awake : ℕ) → NoLostWakeup (wake_one (queue_of xs false n awake) n)
  wake_one-NoLostWakeup xs zero awake = tt
  wake_one-NoLostWakeup xs (suc n) awake = Awaited-awake xs n (awake + 1) (omega arith)

  push_front_all-NoLostWakeup :
      (xs ys : List T) (closed : Bool) (n awake : ℕ)
      → Awaited xs closed n awake
      → NoLostWakeup (push_front_all (queue_of xs closed n awake) ys)
  unfolding push_front_all notify_one
  push_front_all-NoLostWakeup xs [] closed n awake k = k
  push_front_all-NoLostWakeup xs (y ∷ ys) true n awake k = k
  push_front_all-NoLostWakeup xs (y ∷ ys) false n awake k =
      wake_one-NoLostWakeup ((y ∷ ys) ++ xs) n awake

  push_back_all-NoLostWakeup :
      (xs ys : List T) (closed : Bool) (n awake : ℕ)
      → Awaited xs closed n awake
      → NoLostWakeup (push_back_all (queue_of xs closed n awake) ys)
  unfolding push_back_all notify_one
  push_back_all-NoLostWakeup xs [] closed n awake k = k
  push_back_all-NoLostWakeup xs (y ∷ ys) true n awake k = k
  push_back_all-NoLostWakeup xs (y ∷ ys) false n awake k =
      wake_one-NoLostWakeup (xs ++ y ∷ ys) n awake

  exception_safety-NoLostWakeup :
      (xs : List T) (n awake : ℕ) → NoLostWakeup (exception_safety (queue_of xs false n awake))
  unfolding exception_safety notify_one
  exception_safety-NoLostWakeup [] n awake = Awaited-no_data T false n awake tt
  exception_safety-NoLostWakeup (x ∷ xs) n awake = wake_one-NoLostWakeup (x ∷ xs) n awake

  abbrev Keeps : Option (Queue T × Reply T) → Type 0
  Keeps none = Unit
  Keeps (some (q, r)) = NoLostWakeup q

  take-Keeps :
      (x : T) (xs : List T) (n awake : ℕ) (m : Move)
      → Keeps (wait_and_pop_internal (queue_of (x ∷ xs) false n awake) goes_on (move_functor m))
  unfolding wait_and_pop_internal move_data_from_queue_front move_all_data_from_queue
  take-Keeps x xs n awake the_front = exception_safety-NoLostWakeup xs n awake
  take-Keeps x xs n awake all_data = exception_safety-NoLostWakeup [] n awake

  wait_and_pop-Keeps :
      (xs : List T) (closed : Bool) (n awake : ℕ) (m : Move)
      → Quiet closed n
      → Keeps (wait_and_pop (queue_of xs closed n awake) m)
  unfolding wait_and_pop wait_for_data_push_to_queue test_push_and_throw_if_clossed
      wait_and_pop_internal
  wait_and_pop-Keeps xs true n awake m k = Awaited-closed xs n awake k
  wait_and_pop-Keeps [] false n awake m k = Awaited-no_data T false (n + 1) awake tt
  wait_and_pop-Keeps (x ∷ xs) false n awake m k = take-Keeps x xs n awake m

  pop-Keeps :
      (xs : List T) (closed : Bool) (n awake : ℕ) (m : Move)
      → Quiet closed n
      → Keeps (pop (queue_of xs closed n awake) m)
  unfolding pop right_now_throw_timeout_exception_if_no_exist_data_at_queue
      test_push_and_throw_if_clossed wait_and_pop_internal
  pop-Keeps xs true n awake m k = Awaited-closed xs n awake k
  pop-Keeps [] false n awake m k = Awaited-no_data T false n awake tt
  pop-Keeps (x ∷ xs) false n awake m k = take-Keeps x xs n awake m

  close-NoLostWakeup : (q : Queue T) → NoLostWakeup (close q)
  unfolding close notify_all
  close-NoLostWakeup q = tt

  clear-NoLostWakeup : (q : Queue T) → NoLostWakeup q → NoLostWakeup (clear q)
  unfolding clear
  clear-NoLostWakeup q k =
      Awaited-no_data T q.closed q.sleeping q.awake
        (Awaited-Quiet q.queue q.closed q.sleeping q.awake k)

  wakeup-Awaited :
      (xs : List T) (closed : Bool) (n awake : ℕ)
      → Awaited xs closed n awake
      → 0 < n
      → Awaited xs closed (n - 1) (awake + 1)
  wakeup-Awaited xs closed zero awake k b = absurd (omega arith)
  wakeup-Awaited xs true (suc n) awake k b = absurd k
  wakeup-Awaited xs false (suc n) awake k b = Awaited-awake xs _ (awake + 1) (omega arith)

  -- Every step keeps this: while an open queue has data and threads sleep, a thread is awake, and
  -- no thread sleeps on a closed queue.
  pub Step-NoLostWakeup :
      (q : Queue T) (e : Event T) (q' : Queue T) → Step q e q' → NoLostWakeup q → NoLostWakeup q'
  Step-NoLostWakeup q e q' (pushes_front xs) k =
      push_front_all-NoLostWakeup q.queue xs q.closed q.sleeping q.awake k
  Step-NoLostWakeup q e q' (pushes_back xs) k =
      push_back_all-NoLostWakeup q.queue xs q.closed q.sleeping q.awake k
  Step-NoLostWakeup q e q' closes k = close-NoLostWakeup q
  Step-NoLostWakeup q e q' clears k = clear-NoLostWakeup q k
  Step-NoLostWakeup q e q' (enters_pop m runs) k = subst Keeps runs (
      pop-Keeps q.queue q.closed q.sleeping q.awake m
        (Awaited-Quiet q.queue q.closed q.sleeping q.awake k))
  Step-NoLostWakeup q e q' (enters_wait m runs) k = subst Keeps runs (
      wait_and_pop-Keeps q.queue q.closed q.sleeping q.awake m
        (Awaited-Quiet q.queue q.closed q.sleeping q.awake k))
  Step-NoLostWakeup q e q' (resumes m b runs) k = subst Keeps runs (
      wait_and_pop-Keeps q.queue q.closed q.sleeping (q.awake - 1) m
        (Awaited-Quiet q.queue q.closed q.sleeping q.awake k))
  Step-NoLostWakeup q e q' (times_out_asleep m b runs) k = subst Keeps runs (
      pop-Keeps q.queue q.closed (q.sleeping - 1) q.awake m
        (Quiet-less q.closed q.sleeping (Awaited-Quiet q.queue q.closed q.sleeping q.awake k) b))
  Step-NoLostWakeup q e q' (times_out_awake m b runs) k = subst Keeps runs (
      pop-Keeps q.queue q.closed q.sleeping (q.awake - 1) m
        (Awaited-Quiet q.queue q.closed q.sleeping q.awake k))
  Step-NoLostWakeup q e q' (wakes_spuriously b) k =
      wakeup-Awaited q.queue q.closed q.sleeping q.awake k b

  pub Steps-NoLostWakeup :
      (q : Queue T) (es : List (Event T)) (q' : Queue T)
      → Steps q es q'
      → NoLostWakeup q
      → NoLostWakeup q'
  Steps-NoLostWakeup q es q' done k = k
  Steps-NoLostWakeup q es q' (then s ss) k =
      Steps-NoLostWakeup _ _ q' ss (Step-NoLostWakeup q _ _ s k)

  -- What a thread on its way will do with an open queue that has data.
  abbrev pub Takes : T → List T → Queue T → Type ℓ
  Takes x xs q =
      (0 < q.awake)
      × ((q' : Queue T) × (wait_and_pop (record q { awake = q.awake - 1 }) the_front
            ≡ some (q', popped (x ∷ [])))
          × (q'.queue ≡ xs))
      × ((q'' : Queue T) × (wait_and_pop (record q { awake = q.awake - 1 }) all_data
            ≡ some (q'', popped (x ∷ xs)))
          × (q''.queue ≡ []))

  awaited_thread-Takes :
      (x : T) (xs : List T) (n awake : ℕ)
      → NoLostWakeup (queue_of (x ∷ xs) false n awake)
      → 0 < n
      → Takes x xs (queue_of (x ∷ xs) false n awake)
  unfolding wait_and_pop wait_for_data_push_to_queue test_push_and_throw_if_clossed
      wait_and_pop_internal move_data_from_queue_front
  awaited_thread-Takes x xs zero awake k b = absurd (omega arith)
  awaited_thread-Takes x xs (suc n) awake k b = (
    k,
    (
      exception_safety (queue_of xs false (suc n) (awake - 1)),
      refl,
      exception_safety-data xs false (suc n) (awake - 1),
    ),
    (
      exception_safety (queue_of [] false (suc n) (awake - 1)),
      refl,
      exception_safety-data [] false (suc n) (awake - 1),
    ),
  )

  -- In every state reachable from a new queue in which the queue is open and has data and a
  -- thread sleeps in a wait, another thread has been woken, and if it locks the mutex next it
  -- takes the first value, or with wait_and_pop_all all of them. Pushes of several values notify
  -- one thread only, yet no wakeup is lost.
  pub waiting_thread-Takes :
      (es : List (Event T)) (q : Queue T) (x : T) (xs : List T)
      → Steps new_queue es q
      → q.queue ≡ x ∷ xs
      → q.closed ≡ false
      → 0 < q.sleeping
      → Takes x xs q
  waiting_thread-Takes es q x xs ss data_ open_ asleep =
      let known : q ≡ queue_of (x ∷ xs) false q.sleeping q.awake =
        ap₂ (λ d c. queue_of d c q.sleeping q.awake) data_ open_ in
      let kept = Steps-NoLostWakeup new_queue es q ss tt in
      subst (Takes x xs) (sym known)
        (awaited_thread-Takes x xs q.sleeping q.awake (subst NoLostWakeup known kept) asleep)
