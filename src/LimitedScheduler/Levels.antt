-- ===== src/LimitedScheduler/Levels.antt =====
-- Tx/PplxSchedulers/LimitedScheduler.cpp: the levels that calls and workers have, which are the indices
-- of the arrays of `maxLevelCount` elements.
use garbage.Prelude.{
  ℕ, ◌≤◌, ◌<◌, ◌≡◌, refl, sym, subst, [], ◌∷◌, ◌++◌, List, Option, none, some, arith, length,
  update, ◌==◌, leb, ◌&&◌, Bool-cases, inl, inr,
}
use garbage.LimitedScheduler.{
  Place, starting, state_inserted, looping, waiting, draining, running, returned, Call, pushing,
  adding, locking, Scheduler, make_thread, new_scheduler, idle, add_thread_locked, admit, admitted,
  closed, too_deep, canceled, level_of_caller, max_level_count, Admission,
}
use garbage.LimitedScheduler.Steps.{
  Event, Step, calls_schedule, pushes, wants, wants_none, locks, inserts_state, inserts_level,
  returns, waits, wakes, takes, finishes, drains, cancels, pops_thread, joins, joins_next_level,
  closes, Steps, done, and_then, move_worker,
}

abbrev pub level_of : Call → ℕ
level_of (pushing level task) = level
level_of (adding level) = level
level_of (locking level) = level

abbrev pub AllInArrays : List Call → Type 0
AllInArrays [] = Unit
AllInArrays (call ∷ calls) = (level_of call < max_level_count) × AllInArrays calls

abbrev pub WorkerInArrays : Option (ℕ × Place) → Type 0
WorkerInArrays none = Unit
WorkerInArrays (some (level, place)) = level < max_level_count

abbrev pub ClosingInArrays : Option ℕ → Type 0
ClosingInArrays none = Unit
ClosingInArrays (some level) = level ≤ max_level_count

-- Every level of a call and of a worker is an index of the arrays, and the loop of `close` goes one
-- above them at most.
pub record InArrays (s : Scheduler) : Type 0 where
  pub in_calls : AllInArrays s.calls
  pub in_workers : (id : ℕ) → WorkerInArrays (s.worker id)
  pub in_closing : ClosingInArrays s.closing

split :
    (before : List Call) (call : Call) (after : List Call)
    → AllInArrays (before ++ call ∷ after)
    → (level_of call < max_level_count) × AllInArrays (before ++ after)
split [] call after h = h
split (c ∷ before) call after h = let rest = split before call after h.1 in (rest.0, (h.0, rest.1))

insert :
    (before : List Call) (call : Call) (after : List Call)
    → level_of call < max_level_count
    → AllInArrays (before ++ after)
    → AllInArrays (before ++ call ∷ after)
insert [] call after b h = (b, h)
insert (c ∷ before) call after b h = (h.0, insert before call after b h.1)

abbrev AdmitsInArrays : Admission → Type 0
AdmitsInArrays (admitted level) = level < max_level_count
AdmitsInArrays closed = Unit
AdmitsInArrays (too_deep level) = Unit
AdmitsInArrays canceled = Unit

-- The tests of `schedule` admit no level outside of the arrays.
admit-in_arrays : (s : Scheduler) (caller : ℕ) → AdmitsInArrays (admit s caller)
unfolding admit
admit-in_arrays s caller = elim (Bool-cases s.is_closed) [
  | inl c ↦ rw c tt
  | inr o ↦ elim (Bool-cases (leb max_level_count (level_of_caller s caller))) [
    | inl deep ↦ rw (o, deep) tt
    | inr fits ↦ elim (Bool-cases (s.is_cancel && level_of_caller s caller == 0)) [
      | inl c ↦ rw (o, fits, c) tt
      | inr goes ↦ rw (o, fits, goes) (ground (arith, fits))
    ]
  ]
]

-- One worker goes elsewhere.
move_in_arrays :
    (worker : ℕ → Option (ℕ × Place)) (id : ℕ) (o : Option (ℕ × Place))
    → ((k : ℕ) → WorkerInArrays (worker k))
    → WorkerInArrays o
    → (k : ℕ) → WorkerInArrays (update worker id o k)
move_in_arrays worker id o all p k = elim (Bool-cases (k == id)) [
  | inl here ↦ rw here p
  | inr other ↦ rw other (all k)
]

made :
    (s : Scheduler) (level id : ℕ)
    → level < max_level_count
    → InArrays s
    → InArrays (make_thread s level id)
unfolding make_thread
made s level id b h = record {
  in_calls = h.in_calls;
  in_workers = move_in_arrays s.worker id (some (level, starting)) h.in_workers b;
  in_closing = h.in_closing;
}

add_thread-InArrays :
    (s : Scheduler) (level id : ℕ)
    → level < max_level_count
    → InArrays s
    → InArrays (add_thread_locked s level id)
unfolding add_thread_locked
add_thread-InArrays s level id b h =
    elim (Bool-cases (leb (s.limits level) (length (s.threads level)))) [
      | inl full ↦ subst InArrays (sym (rw (full, add_thread_locked) refl)) h
      | inr room ↦ subst InArrays (sym (rw (room, add_thread_locked) refl)) (made s level id b h)
    ]

-- A worker goes on at its level.
moves :
    (s : Scheduler) (id level : ℕ) (place place' : Place)
    → InArrays s
    → s.worker id ≡ some (level, place)
    → InArrays (move_worker s id level place')
moves s id level place place' h e = record {
  in_calls = h.in_calls;
  in_workers =
      move_in_arrays s.worker id (some (level, place')) h.in_workers
        (subst WorkerInArrays e (h.in_workers id));
  in_closing = h.in_closing;
}

-- The call in the middle of the calls that there are.
found :
    (s : Scheduler) (before : List Call) (call : Call) (after : List Call)
    → s.calls ≡ before ++ call ∷ after
    → InArrays s
    → (level_of call < max_level_count) × AllInArrays (before ++ after)
found s before call after e h = split before call after (subst AllInArrays e h.in_calls)

-- The calls change, and whatever else is no level.
calls_in_arrays :
    (s : Scheduler) (calls : List Call)
    → AllInArrays calls
    → InArrays s
    → InArrays (record s { calls = calls })
calls_in_arrays s calls c h = record {
  in_calls = c;
  in_workers = h.in_workers;
  in_closing = h.in_closing;
}

-- What is no level changes.
with_levels :
    (s s' : Scheduler)
    → s'.calls ≡ s.calls
    → s'.worker ≡ s.worker
    → s'.closing ≡ s.closing
    → InArrays s
    → InArrays s'
with_levels s s' c w d h = record {
  in_calls = subst AllInArrays (sym c) h.in_calls;
  in_workers = subst (λ f. (id : ℕ) → WorkerInArrays (f id)) (sym w) h.in_workers;
  in_closing = subst ClosingInArrays (sym d) h.in_closing;
}

Step-InArrays : (s s' : Scheduler) (e : Event) → Step s e s' → InArrays s → InArrays s'
Step-InArrays s _ _ (calls_schedule caller t l a) h =
    calls_in_arrays s (pushing l t ∷ s.calls)
      (subst AdmitsInArrays a (admit-in_arrays s caller), h.in_calls) h
Step-InArrays s _ _ (pushes before after l t e) h =
    let f = found s before (pushing l t) after e h in
    with_levels (record s { calls = before ++ adding l ∷ after })
      (record s {
        tasks = update s.tasks l (s.tasks l ++ t ∷ []);
        calls = before ++ adding l ∷ after;
      })
      refl refl refl
      (calls_in_arrays s (before ++ adding l ∷ after) (insert before (adding l) after f.0 f.1) h)
Step-InArrays s _ _ (wants before after l e w) h =
    let f = found s before (adding l) after e h in
    calls_in_arrays s (before ++ locking l ∷ after) (insert before (locking l) after f.0 f.1) h
Step-InArrays s _ _ (wants_none before after l e w) h =
    calls_in_arrays s (before ++ after) (found s before (adding l) after e h).1 h
Step-InArrays s _ _ (locks before after l id e w) h =
    let f = found s before (locking l) after e h in
    calls_in_arrays (add_thread_locked s l id) (before ++ after) f.1
      (add_thread-InArrays s l id f.0 h)
Step-InArrays s _ _ (inserts_state id l w) h =
    with_levels (move_worker s id l state_inserted) _ refl refl refl
      (moves s id l starting state_inserted h w)
Step-InArrays s _ _ (inserts_level id l w) h =
    with_levels (move_worker s id l looping) _ refl refl refl
      (moves s id l state_inserted looping h w)
Step-InArrays s _ _ (returns id l w c) h = moves s id l looping returned h w
Step-InArrays s _ _ (waits id l w c) h = moves s id l looping waiting h w
Step-InArrays s _ _ (wakes id l w c) h =
    with_levels (move_worker s id l draining) _ refl refl refl (moves s id l waiting draining h w)
Step-InArrays s _ _ (takes id l t rest w e) h =
    with_levels (move_worker s id l (running t)) _ refl refl refl
      (moves s id l draining (running t) h w)
Step-InArrays s _ _ (finishes id l t w) h = moves s id l (running t) draining h w
Step-InArrays s _ _ (drains id l w e) h =
    with_levels (move_worker s id l looping) _ refl refl refl (moves s id l draining looping h w)
Step-InArrays s _ _ (cancels e) h = record {
  in_calls = h.in_calls;
  in_workers = h.in_workers;
  in_closing = omega arith;
}
Step-InArrays s _ _ (pops_thread l id rest c j e b) h = with_levels s _ refl refl refl h
Step-InArrays s _ _ (joins id l j r) h = with_levels s _ refl refl refl h
Step-InArrays s _ _ (joins_next_level l c j e b) h = record {
  in_calls = h.in_calls;
  in_workers = h.in_workers;
  in_closing = b;
}
Step-InArrays s _ _ (closes c) h = record {
  in_calls = h.in_calls;
  in_workers = h.in_workers;
  in_closing = tt;
}

Steps-stay : (s s' : Scheduler) (es : List Event) → Steps s es s' → InArrays s → InArrays s'
Steps-stay s _ _ done h = h
Steps-stay s s'' _ (and_then {s' = s'} {e = e} {es = es} step rest) h =
    Steps-stay s' s'' es rest (Step-InArrays s s' e step h)

-- In every run from a new scheduler, every level of a call of schedule and of a worker is less
-- than the number of levels, which every array has as its size, and the loop of close reaches
-- that number at most.
pub Steps-InArrays :
    (limit id0 id1 : ℕ) (s : Scheduler) (es : List Event)
    → Steps (new_scheduler limit id0 id1) es s
    → InArrays s
unfolding new_scheduler
Steps-InArrays limit id0 id1 s es run = Steps-stay (new_scheduler limit id0 id1) s es run (
    made (make_thread (idle limit) 0 id0) 1 id1 (omega arith) (
      made (idle limit) 0 id0 (omega arith)
        (record { in_calls = tt; in_workers = λ id. tt; in_closing = tt })))
