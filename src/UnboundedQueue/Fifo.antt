-- ===== src/UnboundedQueue/Fifo.antt =====
-- UnboundedQueue.hpp: which values come out of a queue, and in which order.
use garbage.Prelude.{
  ℕ, zero, suc, ◌≡◌, refl, Bool, true, false, [], ◌∷◌, ◌++◌, List, Option, none, some, ◌⊎◌, inl,
  inr,
}
use garbage.UnboundedQueue.{
  queue_of, Queue, Reply, notify_one, wake_one, push_front_all, push_back_all, exception_safety,
}
use garbage.UnboundedQueue.Steps.{
  Event, puts_front, puts_back, takes, drops, nothing, event_of, Steps,
}

module _ {ℓ} {T : Type ℓ} where
  -- The values that an event puts at the back, and those that it takes.
  abbrev pub put : Event T → List T
  put (puts_front xs) = []
  put (puts_back xs) = xs
  put (takes xs) = []
  put drops = []
  put nothing = []

  abbrev pub took : Event T → List T
  took (puts_front xs) = []
  took (puts_back xs) = []
  took (takes xs) = xs
  took drops = []
  took nothing = []

  abbrev pub all_put : List (Event T) → List T
  all_put [] = []
  all_put (e ∷ es) = put e ++ all_put es

  abbrev pub all_taken : List (Event T) → List T
  all_taken [] = []
  all_taken (e ∷ es) = took e ++ all_taken es

  -- No event puts a value at the front, and none drops the data.
  abbrev IsFifo : Event T → Type 0
  IsFifo (puts_front xs) = ⊥
  IsFifo (puts_back xs) = Unit
  IsFifo (takes xs) = Unit
  IsFifo drops = ⊥
  IsFifo nothing = Unit

  abbrev pub AllFifo : List (Event T) → Type 0
  AllFifo [] = Unit
  AllFifo (e ∷ es) = IsFifo e × AllFifo es

  -- What a reply has taken stood before what is left.
  abbrev Delivers : List T → Option (Queue T × Reply T) → Type ℓ
  Delivers xs none = Unit
  Delivers xs (some (q, r)) = xs ≡ took (event_of r) ++ q.queue

  wake_one-data : (q : Queue T) (n : ℕ) → (wake_one q n).queue ≡ q.queue
  wake_one-data q zero = refl
  wake_one-data q (suc n) = refl

  notify_one-data : (q : Queue T) → (notify_one q).queue ≡ q.queue
  unfolding notify_one
  notify_one-data q = wake_one-data q q.sleeping

  pub exception_safety-data :
      (xs : List T) (closed : Bool) (n awake : ℕ)
      → (exception_safety (queue_of xs closed n awake)).queue ≡ xs
  unfolding exception_safety
  exception_safety-data [] closed n awake = refl
  exception_safety-data (x ∷ xs) closed n awake = notify_one-data (queue_of (x ∷ xs) closed n awake)

  -- A push leaves the values as they were, or puts its own to them.
  pub push_front_all-data :
      (xs ys : List T) (closed : Bool) (n awake : ℕ)
      → let zs = (push_front_all (queue_of xs closed n awake) ys).queue in
        (zs ≡ ys ++ xs) ⊎ (zs ≡ xs)
  unfolding push_front_all
  push_front_all-data xs [] closed n awake = inr refl
  push_front_all-data xs (y ∷ ys) true n awake = inr refl
  push_front_all-data xs (y ∷ ys) false n awake =
      inl (notify_one-data (queue_of ((y ∷ ys) ++ xs) false n awake))

  pub push_back_all-data :
      (xs ys : List T) (closed : Bool) (n awake : ℕ)
      → let zs = (push_back_all (queue_of xs closed n awake) ys).queue in
        (zs ≡ xs ++ ys) ⊎ (zs ≡ xs)
  unfolding push_back_all
  push_back_all-data xs [] closed n awake = inr refl
  push_back_all-data xs (y ∷ ys) true n awake = inr refl
  push_back_all-data xs (y ∷ ys) false n awake =
      inl (notify_one-data (queue_of (xs ++ y ∷ ys) false n awake))
