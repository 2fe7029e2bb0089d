-- ===== src/LimitedScheduler/States.antt =====
-- Tx/PplxSchedulers/LimitedScheduler.cpp: the maps `_stateThreads` and `_levelThreads`, into which a
-- worker inserts its state and then its level, and which the search of `addThread` reads.
use garbage.Prelude.{
  ℕ, ◌≡◌, ◌≢◌, refl, sym, subst, ap, ◌∙◌, Bool, [], ◌∷◌, List, Option, none, some, length, update,
  ◌==◌, ==_iff, leb, Bool-cases, inl, inr,
}
use garbage.LimitedScheduler.{
  free, working, Place, starting, state_inserted, looping, waiting, draining, running, returned,
  Scheduler, ThreadState, find, set_state, look_at, has_free, idle, make_thread, new_scheduler,
  add_thread_locked,
}
use garbage.LimitedScheduler.Steps.{
  Event, Step, calls_schedule, pushes, wants, wants_none, locks, inserts_state, inserts_level,
  returns, waits, wakes, takes, finishes, drains, cancels, pops_thread, joins, joins_next_level,
  closes, Steps, done, and_then, move_worker, mark_worker,
}

abbrev States : Type 0
States = List (ℕ × ThreadState)

abbrev Has : States → ℕ → Type 0
Has states id = (state : ThreadState) × (find states id ≡ some state)

-- A worker that has got so far has a state.
abbrev Placed : States → ℕ → Option (ℕ × Place) → Type 0
Placed states id none = Unit
Placed states id (some (level, starting)) = Unit
Placed states id (some (level, state_inserted)) = Has states id
Placed states id (some (level, looping)) = Has states id
Placed states id (some (level, waiting)) = Has states id
Placed states id (some (level, draining)) = Has states id
Placed states id (some (level, running task)) = Has states id
Placed states id (some (level, returned)) = Has states id

abbrev AllHave : States → List (ℕ × ℕ) → Type 0
AllHave states [] = Unit
AllHave states ((id, level) ∷ entries) = Has states id × AllHave states entries

record HaveStates (s : Scheduler) : Type 0 where
  workers : (id : ℕ) → Placed s.state_threads id (s.worker id)
  levels : AllHave s.state_threads s.level_threads

-- What the maps of states do to those that are there.
Keeps : States → States → Type 0
Keeps states states' = (id : ℕ) → Has states id → Has states' id

insert-Keeps :
    (states : States) (id : ℕ) (state : ThreadState) → Keeps states ((id, state) ∷ states)
unfolding Keeps
insert-Keeps states id state k h = elim (Bool-cases (id == k)) [
  | inl here ↦ (state, rw here refl)
  | inr other ↦ (h.0, rw other h.1)
]

set_state-Keeps :
    (states : States) (id : ℕ) (state : ThreadState) → Keeps states (set_state states id state)
unfolding Keeps
set_state-Keeps [] id state k h = h
set_state-Keeps ((j, old) ∷ states) id state k h = elim (Bool-cases (j == id)) [
  | inl here ↦ elim (Bool-cases (j == k)) [
    | inl found ↦ (state, rw (here, found) refl)
    | inr other ↦ (h.0, rw (here, other) (sym (rw other refl) ∙ h.1))
  ]
  | inr there ↦ elim (Bool-cases (j == k)) [
    | inl found ↦ (old, rw (there, found) refl)
    | inr other ↦
        let rest = set_state-Keeps states id state k (h.0, sym (rw other refl) ∙ h.1) in
        (rest.0, rw (there, other) rest.1)
  ]
]

Placed-Keeps :
    (states states' : States) (id : ℕ) (o : Option (ℕ × Place))
    → Keeps states states'
    → Placed states id o
    → Placed states' id o
unfolding Keeps
Placed-Keeps states states' id none k p = tt
Placed-Keeps states states' id (some (level, starting)) k p = tt
Placed-Keeps states states' id (some (level, state_inserted)) k p = k id p
Placed-Keeps states states' id (some (level, looping)) k p = k id p
Placed-Keeps states states' id (some (level, waiting)) k p = k id p
Placed-Keeps states states' id (some (level, draining)) k p = k id p
Placed-Keeps states states' id (some (level, running task)) k p = k id p
Placed-Keeps states states' id (some (level, returned)) k p = k id p

AllHave-Keeps :
    (states states' : States) (entries : List (ℕ × ℕ))
    → Keeps states states'
    → AllHave states entries
    → AllHave states' entries
unfolding Keeps
AllHave-Keeps states states' [] k h = tt
AllHave-Keeps states states' ((id, level) ∷ entries) k h =
    (k id h.0, AllHave-Keeps states states' entries k h.1)

-- One worker goes elsewhere.
move-Placed :
    (states : States) (worker : ℕ → Option (ℕ × Place)) (id : ℕ) (o : Option (ℕ × Place))
    → ((k : ℕ) → Placed states k (worker k))
    → Placed states id o
    → (k : ℕ) → Placed states k (update worker id o k)
move-Placed states worker id o all p k = elim (Bool-cases (k == id)) [
  | inl here ↦ rw here (subst (λ j. Placed states j o) (sym ((==_iff k id).0 here)) p)
  | inr other ↦ rw other (all k)
]

-- A thread is made.
made : (s : Scheduler) (level id : ℕ) → HaveStates s → HaveStates (make_thread s level id)
unfolding make_thread
made s level id h = record {
  workers = move-Placed s.state_threads s.worker id (some (level, starting)) h.workers tt;
  levels = h.levels;
}

add_thread-HaveStates :
    (s : Scheduler) (level id : ℕ) → HaveStates s → HaveStates (add_thread_locked s level id)
unfolding add_thread_locked
add_thread-HaveStates s level id h =
    elim (Bool-cases (leb (s.limits level) (length (s.threads level)))) [
      | inl full ↦ subst HaveStates (sym (rw (full, add_thread_locked) refl)) h
      | inr room ↦ subst HaveStates (sym (rw (room, add_thread_locked) refl)) (made s level id h)
    ]

-- A worker with a state goes on.
moves :
    (s : Scheduler) (id level : ℕ) (place : Place)
    → HaveStates s
    → Placed s.state_threads id (some (level, place))
    → HaveStates (move_worker s id level place)
moves s id level place h p = record {
  workers = move-Placed s.state_threads s.worker id (some (level, place)) h.workers p;
  levels = h.levels;
}

-- The states are changed.
changes :
    (s : Scheduler) (states : States)
    → HaveStates s
    → Keeps s.state_threads states
    → HaveStates (record s { state_threads = states })
changes s states h k = record {
  workers = λ id. Placed-Keeps s.state_threads states id (s.worker id) k (h.workers id);
  levels = AllHave-Keeps s.state_threads states s.level_threads k h.levels;
}

at_place :
    (s : Scheduler) (id level : ℕ) (place : Place)
    → HaveStates s
    → s.worker id ≡ some (level, place)
    → Placed s.state_threads id (some (level, place))
at_place s id level place h e = subst (Placed s.state_threads id) e (h.workers id)

new_state : (states : States) (id : ℕ) → Has ((id, free) ∷ states) id
new_state states id = (free, rw ((==_iff id id).1 refl) refl)

Step-HaveStates : (s s' : Scheduler) (e : Event) → Step s e s' → HaveStates s → HaveStates s'
unfolding Keeps
Step-HaveStates s _ _ (calls_schedule c t l a) h = record { workers = h.workers; levels = h.levels }
Step-HaveStates s _ _ (pushes before after l t e) h = record {
  workers = h.workers;
  levels = h.levels;
}
Step-HaveStates s _ _ (wants before after l e w) h = record {
  workers = h.workers;
  levels = h.levels;
}
Step-HaveStates s _ _ (wants_none before after l e w) h = record {
  workers = h.workers;
  levels = h.levels;
}
Step-HaveStates s _ _ (locks before after l id e f) h =
    let added = add_thread-HaveStates s l id h in
    record { workers = added.workers; levels = added.levels }
Step-HaveStates s _ _ (inserts_state id l w) h =
    let states = (id, free) ∷ s.state_threads in
    moves (record s { state_threads = states }) id l state_inserted
      (changes s states h (insert-Keeps s.state_threads id free)) (new_state s.state_threads id)
Step-HaveStates s _ _ (inserts_level id l w) h =
    let has = at_place s id l state_inserted h w in
    moves (record s { level_threads = (id, l) ∷ s.level_threads }) id l looping
      (record { workers = h.workers; levels = (has, h.levels) }) has
Step-HaveStates s _ _ (returns id l w c) h = moves s id l returned h (at_place s id l looping h w)
Step-HaveStates s _ _ (waits id l w c) h = moves s id l waiting h (at_place s id l looping h w)
Step-HaveStates s _ _ (wakes id l w c) h =
    let keeps = set_state-Keeps s.state_threads id working in
    moves (mark_worker s id working) id l draining
      (changes s (set_state s.state_threads id working) h keeps)
      (keeps id (at_place s id l waiting h w))
Step-HaveStates s _ _ (takes id l t rest w e) h =
    moves (record s { tasks = update s.tasks l rest }) id l (running t)
      (record { workers = h.workers; levels = h.levels }) (at_place s id l draining h w)
Step-HaveStates s _ _ (finishes id l t w) h =
    moves s id l draining h (at_place s id l (running t) h w)
Step-HaveStates s _ _ (drains id l w e) h =
    let keeps = set_state-Keeps s.state_threads id free in
    moves (mark_worker s id free) id l looping
      (changes s (set_state s.state_threads id free) h keeps)
      (keeps id (at_place s id l draining h w))
Step-HaveStates s _ _ (cancels e) h = record { workers = h.workers; levels = h.levels }
Step-HaveStates s _ _ (pops_thread l id rest c j e b) h = record {
  workers = h.workers;
  levels = h.levels;
}
Step-HaveStates s _ _ (joins id l j r) h = record { workers = h.workers; levels = h.levels }
Step-HaveStates s _ _ (joins_next_level l c j e b) h = record {
  workers = h.workers;
  levels = h.levels;
}
Step-HaveStates s _ _ (closes c) h = record { workers = h.workers; levels = h.levels }

Steps-HaveStates :
    (s s' : Scheduler) (es : List Event) → Steps s es s' → HaveStates s → HaveStates s'
Steps-HaveStates s _ _ done h = h
Steps-HaveStates s s'' _ (and_then {s' = s'} {e = e} {es = es} step rest) h =
    Steps-HaveStates s' s'' es rest (Step-HaveStates s s' e step h)

looks_at :
    (states : States) (id : ℕ) (state : ThreadState) (rest : Option Bool)
    → find states id ≡ some state
    → rest ≢ none
    → look_at (find states id) rest ≢ none
looks_at states id free rest f r e = cc (sym (ap (λ o. look_at o rest) f) ∙ e)
looks_at states id working rest f r e = r (sym (ap (λ o. look_at o rest) f) ∙ e)

found_at :
    (states : States) (entries : List (ℕ × ℕ)) (level : ℕ)
    → AllHave states entries
    → has_free entries states level ≢ none
found_at states [] level h e = cc e
found_at states ((id, l) ∷ entries) level h e = elim (Bool-cases (l == level)) [
  | inl here ↦
      looks_at states id h.0.0 (has_free entries states level) h.0.1
        (found_at states entries level h.1) (sym (rw here refl) ∙ e)
  | inr other ↦ found_at states entries level h.1 (sym (rw other refl) ∙ e)
]

-- In every run from a new scheduler, the search of addThread for a free worker of any level finds
-- a state for each worker that it looks at: `at` never throws.
pub Steps-has_free :
    (limit id0 id1 level : ℕ) (s : Scheduler) (es : List Event)
    → Steps (new_scheduler limit id0 id1) es s
    → has_free s.level_threads s.state_threads level ≢ none
unfolding new_scheduler
Steps-has_free limit id0 id1 level s es run =
    found_at s.state_threads s.level_threads level
      (Steps-HaveStates (new_scheduler limit id0 id1) s es run (
        made (make_thread (idle limit) 0 id0) 1 id1
          (made (idle limit) 0 id0 (record { workers = λ id. tt; levels = tt })))).levels
