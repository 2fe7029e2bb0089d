-- ===== src/UnboundedQueue/Closing.antt =====
-- UnboundedQueue.hpp: what `close` puts an end to.
use garbage.Prelude.{◌≡◌, ◌⊎◌, true, [], ◌∷◌, List, Option, none, some}
use garbage.UnboundedQueue.{Queue, Reply}
use garbage.UnboundedQueue.Steps.{
  Event, puts_front, puts_back, takes, drops, nothing, event_of, Steps,
}

module _ {ℓ} {T : Type ℓ} where
  -- No value is put or taken.
  abbrev IsIdle : Event T → Type 0
  IsIdle (puts_front xs) = ⊥
  IsIdle (puts_back xs) = ⊥
  IsIdle (takes xs) = ⊥
  IsIdle drops = Unit
  IsIdle nothing = Unit

  abbrev pub AllIdle : List (Event T) → Type 0
  AllIdle [] = Unit
  AllIdle (e ∷ es) = IsIdle e × AllIdle es

  -- Nothing is taken, and the values stay as they were.
  abbrev Refuses : List T → Option (Queue T × Reply T) → Type ℓ
  Refuses xs none = Unit
  Refuses xs (some (q, r)) = IsIdle (event_of r) × (q.closed ≡ true) × (q.queue ≡ xs)

  -- The values are as they were, or dropped.
  abbrev pub KeptOrCleared : List T → List T → Type ℓ
  KeptOrCleared xs ys = (ys ≡ xs) ⊎ (ys ≡ [])

  -- What a step or a run leaves of a closed queue.
  abbrev StaysClosed : Queue T → Event T → Queue T → Type ℓ
  StaysClosed q e q' = IsIdle e × (q'.closed ≡ true) × KeptOrCleared q.queue q'.queue
