-- ===== src/UnboundedQueue.antt =====
-- UnboundedQueue.hpp: the classes `TUnboundedQueueForNonThrowMovable` and `TUnboundedQueue_`. Every
-- function here is one critical section under `_lockQueue`. The condition variable `_pushToQueue` is
-- two counts: the threads that sleep on it, and those that it let go and that have not locked the
-- mutex again. A woken thread tests its predicate again, as `wait` and `wait_for` with a predicate do.
pub mod Steps
pub mod Waking
pub mod Fifo
pub mod Closing
pub mod Tests
use garbage.Prelude.{
  length, ◌>>=◌, ℕ, zero, suc, ◌+◌, ◌-◌, Bool, true, false, [], ◌∷◌, ◌++◌, List, Option, none, some,
}

pub record Queue {ℓ} (T : Type ℓ) : Type ℓ where
  pub queue : List T
  pub closed : Bool
  pub sleeping : ℕ
  pub awake : ℕ

-- `TUnboundedQueueTimeoutException` and `TUnboundedQueueClosedException`
pub data QueueException : Type 0 where
  timeout_exception : QueueException
  closed_exception : QueueException

-- What a wait functor does: it returns, throws, or puts its thread to sleep.
pub data Waited : Type 0 where
  goes_on : Waited
  raises : QueueException → Waited
  sleeps : Waited

-- What a thread has at the end of its critical section.
pub data Reply {ℓ} (T : Type ℓ) : Type ℓ where
  popped : List T → Reply T
  raised : QueueException → Reply T
  blocked : Reply T

-- Which of the two move functors
pub data Move : Type 0 where
  the_front : Move
  all_data : Move

module _ {ℓ} {T : Type ℓ} where
  abbrev pub queue_of : List T → Bool → ℕ → ℕ → Queue T
  queue_of xs closed n awake = record { queue = xs; closed = closed; sleeping = n; awake = awake }

  abbrev pub is_empty : List T → Bool
  is_empty [] = true
  is_empty (x ∷ xs) = false

  abbrev pub empty_unstable : Queue T → Bool
  empty_unstable q = is_empty q.queue

  abbrev pub size_unstable : Queue T → ℕ
  size_unstable q = length q.queue

  abbrev pub wake_one : Queue T → ℕ → Queue T
  wake_one q zero = q
  wake_one q (suc n) = record q { sleeping = n; awake = q.awake + 1 }

  unfoldable pub notify_one : Queue T → Queue T
  notify_one q = wake_one q q.sleeping

  unfoldable pub notify_all : Queue T → Queue T
  notify_all q = record q { sleeping = 0; awake = q.awake + q.sleeping }

  unfoldable pub close : Queue T → Queue T
  unfolding notify_all
  close q = notify_all (record q { closed = true })

  -- `push_front` is that of one value. The early returns leave the queue as it is.
  unfoldable pub push_front_all : Queue T → List T → Queue T
  unfolding notify_one
  push_front_all q [] = q
  push_front_all q (x ∷ data_) = elim q.closed [
    | true ↦ q
    | false ↦ notify_one (record q { queue = (x ∷ data_) ++ q.queue })
  ]

  unfoldable pub push_back_all : Queue T → List T → Queue T
  unfolding notify_one
  push_back_all q [] = q
  push_back_all q (x ∷ data_) = elim q.closed [
    | true ↦ q
    | false ↦ notify_one (record q { queue = q.queue ++ x ∷ data_ })
  ]

  abbrev pub push_front : Queue T → T → Queue T
  push_front q x = push_front_all q (x ∷ [])

  abbrev pub push_back : Queue T → T → Queue T
  push_back q x = push_back_all q (x ∷ [])

  unfoldable pub clear : Queue T → Queue T
  clear q = record q { queue = [] }

  -- The predicate of the waits, with what they make of its result `false`.
  unfoldable pub test_push_and_throw_if_clossed : Queue T → Waited → Waited
  test_push_and_throw_if_clossed q no_data = elim q.closed [
    | true ↦ raises closed_exception
    | false ↦ elim q.queue [ [] ↦ no_data | x ∷ xs ↦ goes_on ]
  ]

  -- `waitForDataPushToQueue`, and `waitForDataPushToQueueOrTimeout` before its time is over
  unfoldable pub wait_for_data_push_to_queue : Queue T → Waited
  unfolding test_push_and_throw_if_clossed
  wait_for_data_push_to_queue q = test_push_and_throw_if_clossed q sleeps

  -- `rightNowThrowTimeoutExceptionIfNoExistDataAtQueue`, and
  -- `waitForDataPushToQueueOrTimeout` when its time is over
  unfoldable pub right_now_throw_timeout_exception_if_no_exist_data_at_queue : Queue T → Waited
  unfolding test_push_and_throw_if_clossed
  right_now_throw_timeout_exception_if_no_exist_data_at_queue q =
      test_push_and_throw_if_clossed q (raises timeout_exception)

  -- The moved values and those left. The front of an empty queue is undefined.
  unfoldable pub move_data_from_queue_front : List T → Option (List T × List T)
  move_data_from_queue_front [] = none
  move_data_from_queue_front (x ∷ xs) = some (x ∷ [], xs)

  unfoldable pub move_all_data_from_queue : List T → Option (List T × List T)
  move_all_data_from_queue xs = some (xs, [])

  -- The destructor of `exceptionSafety`
  unfoldable pub exception_safety : Queue T → Queue T
  unfolding notify_one
  exception_safety q = elim q.queue [ [] ↦ q | x ∷ xs ↦ notify_one q ]

  -- The wait functor is given as its result. If it throws, `exceptionSafety` does not exist yet.
  unfoldable pub wait_and_pop_internal :
      Queue T → Waited → (List T → Option (List T × List T)) → Option (Queue T × Reply T)
  unfolding exception_safety
  wait_and_pop_internal q goes_on move = do
    (result, rest) ← move q.queue
    some (exception_safety (record q { queue = rest }), popped result)
  wait_and_pop_internal q (raises e) move = some (q, raised e)
  wait_and_pop_internal q sleeps move = some (record q { sleeping = q.sleeping + 1 }, blocked)

  abbrev pub move_functor : Move → List T → Option (List T × List T)
  move_functor the_front = move_data_from_queue_front
  move_functor all_data = move_all_data_from_queue

  -- `wait_and_pop` and `wait_and_pop_all`, without or before a timeout
  unfoldable pub wait_and_pop : Queue T → Move → Option (Queue T × Reply T)
  unfolding wait_and_pop_internal wait_for_data_push_to_queue move_data_from_queue_front
      move_all_data_from_queue
  wait_and_pop q m = wait_and_pop_internal q (wait_for_data_push_to_queue q) (move_functor m)

  -- `pop` and `pop_all`, and the end of a timed wait when its time is over
  unfoldable pub pop : Queue T → Move → Option (Queue T × Reply T)
  unfolding wait_and_pop_internal right_now_throw_timeout_exception_if_no_exist_data_at_queue
      move_data_from_queue_front move_all_data_from_queue
  pop q m =
      wait_and_pop_internal q (right_now_throw_timeout_exception_if_no_exist_data_at_queue q)
        (move_functor m)

  abbrev pub or_empty : Reply T → Reply T
  or_empty (popped xs) = popped xs
  or_empty (raised timeout_exception) = popped []
  or_empty (raised closed_exception) = raised closed_exception
  or_empty blocked = blocked

  unfoldable pub pop_all_or_empty : Queue T → Option (Queue T × Reply T)
  unfolding pop
  pop_all_or_empty q = do (q', reply) ← pop q all_data; some (q', or_empty reply)
