-- ===== src/UnboundedQueue/Tests.antt =====
-- UnboundedQueue.hpp: runs of two consumers and a producer.
use garbage.Prelude.{ℕ, ◌+◌, ◌≡◌, refl, Bool, false, [], ◌∷◌, List, some, arith}
use garbage.UnboundedQueue.{
  queue_of, Queue, blocked, the_front, notify_one, push_back_all, wait_and_pop,
  wait_and_pop_internal, test_push_and_throw_if_clossed, wait_for_data_push_to_queue,
}
use garbage.UnboundedQueue.Steps.{
  puts_back, nothing, pushes_back, enters_wait, Steps, done, then, new_queue,
}
use garbage.UnboundedQueue.Waking.{Takes, waiting_thread-Takes}

abbrev state : List ℕ → Bool → ℕ → ℕ → Queue ℕ
state xs closed n awake = queue_of xs closed n awake

one_waits :
    (n : ℕ) → wait_and_pop (state [] false n 0) the_front ≡ some (state [] false (n + 1) 0, blocked)
unfolding wait_and_pop wait_for_data_push_to_queue test_push_and_throw_if_clossed
    wait_and_pop_internal
one_waits n = refl

-- Two threads wait, and two values are pushed at once.
waiting_run :
    Steps new_queue (nothing ∷ nothing ∷ puts_back (7 ∷ 8 ∷ []) ∷ []) (state (7 ∷ 8 ∷ []) false 1 1)
unfolding push_back_all notify_one
waiting_run =
    then (enters_wait the_front (one_waits 0))
      (then (enters_wait the_front (one_waits 1)) (then (pushes_back (7 ∷ 8 ∷ [])) done))

waiting_thread-Takes_example : Takes 7 (8 ∷ []) (state (7 ∷ 8 ∷ []) false 1 1)
waiting_thread-Takes_example =
    waiting_thread-Takes (nothing ∷ nothing ∷ puts_back (7 ∷ 8 ∷ []) ∷ [])
      (state (7 ∷ 8 ∷ []) false 1 1) 7 (8 ∷ []) waiting_run refl refl (omega arith)
