-- ===== src/LimitedScheduler/Workers.antt =====
-- Tx/PplxSchedulers/LimitedScheduler.cpp: the threads that there are, and those that `_threads` has.
use garbage.Prelude.{
  ℕ, ◌≤◌, ◌≡◌, refl, sym, subst, ◌∙◌, Bool, true, false, [], ◌∷◌, ◌++◌, List, Option, none, some,
  if◌then◌else◌, ◌==◌, ==_iff, leb, Bool-cases, inl, inr, length, update,
}
use garbage.LimitedScheduler.{
  Place, starting, state_inserted, looping, waiting, draining, running, returned, Scheduler,
  thread_count, make_thread, idle, new_scheduler, add_thread_locked,
}
use garbage.LimitedScheduler.Steps.{
  move_worker, Event, Step, calls_schedule, pushes, wants, wants_none, locks, inserts_state,
  inserts_level, returns, waits, wakes, takes, finishes, drains, cancels, pops_thread, joins,
  joins_next_level, closes, Steps, done, and_then,
}
use garbage.LimitedScheduler.Threads.{thread_count-bounds, Steps-InLimits, new-InLimits}

abbrev pub has : ℕ → List ℕ → Bool
has id [] = false
has id (k ∷ ids) = if k == id then true else has id ids

has-append : (id : ℕ) (ids others : List ℕ) → has id ids ≡ true → has id (ids ++ others) ≡ true
has-append id [] others e = cc e
has-append id (k ∷ ids) others e = elim (Bool-cases (k == id)) [
  | inl here ↦ rw here refl
  | inr other ↦ rw other (has-append id ids others (rw other at e))
]

has_last : (id : ℕ) (ids : List ℕ) → has id (ids ++ id ∷ []) ≡ true
has_last id [] = rw ((==_iff id id).1 refl) refl
has_last id (k ∷ ids) = elim (Bool-cases (k == id)) [
  | inl here ↦ rw here refl
  | inr other ↦ rw other (has_last id ids)
]

-- A worker is among the threads of its level.
abbrev Listed : (ℕ → List ℕ) → ℕ → Option (ℕ × Place) → Type 0
Listed threads id none = Unit
Listed threads id (some (level, place)) = has id (threads level) ≡ true

-- Every worker is, as long as nothing is canceled.
record AllListed (s : Scheduler) : Type 0 where
  closing : s.is_cancel ≡ false → s.closing ≡ none
  workers : s.is_cancel ≡ false → (id : ℕ) → Listed s.threads id (s.worker id)

-- What is no thread changes.
same_threads :
    (s s' : Scheduler)
    → s'.threads ≡ s.threads
    → s'.worker ≡ s.worker
    → s'.closing ≡ s.closing
    → s'.is_cancel ≡ s.is_cancel
    → AllListed s
    → AllListed s'
same_threads s s' t w c d h = record {
  closing = λ e. c ∙ h.closing (sym d ∙ e);
  workers = λ e.
      subst (λ f. (id : ℕ) → Listed f id (s'.worker id)) (sym t)
        (subst (λ f. (id : ℕ) → Listed s.threads id (f id)) (sym w) (h.workers (sym d ∙ e)));
}

-- A canceled scheduler is of no interest.
when_canceled : (s : Scheduler) → s.is_cancel ≡ true → AllListed s
when_canceled s e = record { closing = λ f. cc (e, f); workers = λ f. cc (e, f) }

-- While `close` runs, everything is canceled.
is_canceled :
    (s : Scheduler) (level : ℕ) → s.closing ≡ some level → AllListed s → s.is_cancel ≡ true
is_canceled s level c h = elim (Bool-cases s.is_cancel) [ inl e ↦ e | inr e ↦ cc (c, h.closing e) ]

moves :
    (s : Scheduler) (id level : ℕ) (place place' : Place)
    → AllListed s
    → s.worker id ≡ some (level, place)
    → AllListed (move_worker s id level place')
moves s id level place place' h w = record {
  closing = h.closing;
  workers = λ e k. elim (Bool-cases (k == id)) [
    | inl here ↦ rw here (
        subst (λ j. has j (s.threads level) ≡ true) (sym ((==_iff k id).0 here))
          (subst (Listed s.threads id) w (h.workers e id)))
    | inr other ↦ rw other (h.workers e k)
  ];
}

Listed-make_thread :
    (threads : ℕ → List ℕ) (level id k : ℕ) (o : Option (ℕ × Place))
    → Listed threads k o
    → Listed (update threads level (threads level ++ id ∷ [])) k o
Listed-make_thread threads level id k none h = tt
Listed-make_thread threads level id k (some (l, place)) h = elim (Bool-cases (l == level)) [
  | inl here ↦ rw here (
      has-append k (threads level) (id ∷ [])
        (subst (λ m. has k (threads m) ≡ true) ((==_iff l level).0 here) h))
  | inr other ↦ rw other h
]

made : (s : Scheduler) (level id : ℕ) → AllListed s → AllListed (make_thread s level id)
unfolding make_thread
made s level id h = record {
  closing = h.closing;
  workers = λ e k. elim (Bool-cases (k == id)) [
    | inl here ↦
        rw (here, (==_iff level level).1 refl)
          (subst (λ j. has j (s.threads level ++ id ∷ []) ≡ true) (sym ((==_iff k id).0 here))
            (has_last id (s.threads level)))
    | inr other ↦ rw other (Listed-make_thread s.threads level id k (s.worker k) (h.workers e k))
  ];
}

add_thread-AllListed :
    (s : Scheduler) (level id : ℕ) → AllListed s → AllListed (add_thread_locked s level id)
unfolding add_thread_locked
add_thread-AllListed s level id h =
    elim (Bool-cases (leb (s.limits level) (length (s.threads level)))) [
      | inl full ↦ subst AllListed (sym (rw (full, add_thread_locked) refl)) h
      | inr room ↦ subst AllListed (sym (rw (room, add_thread_locked) refl)) (made s level id h)
    ]

Step-AllListed : (s s' : Scheduler) (e : Event) → Step s e s' → AllListed s → AllListed s'
Step-AllListed s s' _ (calls_schedule c t l a) h = same_threads s s' refl refl refl refl h
Step-AllListed s s' _ (pushes before after l t e) h = same_threads s s' refl refl refl refl h
Step-AllListed s s' _ (wants before after l e w) h = same_threads s s' refl refl refl refl h
Step-AllListed s s' _ (wants_none before after l e w) h = same_threads s s' refl refl refl refl h
Step-AllListed s s' _ (locks before after l id e f) h =
    same_threads (add_thread_locked s l id) s' refl refl refl refl (add_thread-AllListed s l id h)
Step-AllListed s s' _ (inserts_state id l w) h =
    same_threads (move_worker s id l state_inserted) s' refl refl refl refl
      (moves s id l starting state_inserted h w)
Step-AllListed s s' _ (inserts_level id l w) h =
    same_threads (move_worker s id l looping) s' refl refl refl refl
      (moves s id l state_inserted looping h w)
Step-AllListed s s' _ (returns id l w c) h = moves s id l looping returned h w
Step-AllListed s s' _ (waits id l w c) h = moves s id l looping waiting h w
Step-AllListed s s' _ (wakes id l w c) h =
    same_threads (move_worker s id l draining) s' refl refl refl refl
      (moves s id l waiting draining h w)
Step-AllListed s s' _ (takes id l t rest w e) h =
    same_threads (move_worker s id l (running t)) s' refl refl refl refl
      (moves s id l draining (running t) h w)
Step-AllListed s s' _ (finishes id l t w) h = moves s id l (running t) draining h w
Step-AllListed s s' _ (drains id l w e) h =
    same_threads (move_worker s id l looping) s' refl refl refl refl
      (moves s id l draining looping h w)
Step-AllListed s s' _ (cancels e) h = when_canceled s' refl
Step-AllListed s s' _ (pops_thread l id rest c j e b) h = when_canceled s' (is_canceled s l c h)
Step-AllListed s s' _ (joins id l j r) h = same_threads s s' refl refl refl refl h
Step-AllListed s s' _ (joins_next_level l c j e b) h = when_canceled s' (is_canceled s l c h)
Step-AllListed s s' _ (closes c) h = when_canceled s' (is_canceled s _ c h)

Steps-AllListed : (s s' : Scheduler) (es : List Event) → Steps s es s' → AllListed s → AllListed s'
Steps-AllListed s _ _ done h = h
Steps-AllListed s s'' _ (and_then {s' = s'} {e = e} {es = es} step rest) h =
    Steps-AllListed s' s'' es rest (Step-AllListed s s' e step h)

new-AllListed : (limit id0 id1 : ℕ) → AllListed (new_scheduler limit id0 id1)
unfolding new_scheduler
new-AllListed limit id0 id1 =
    made (make_thread (idle limit) 0 id0) 1 id1
      (made (idle limit) 0 id0 (record { closing = λ e. refl; workers = λ e id. tt }))

-- In every run from a new scheduler, with any limit, as long as close has not begun: every thread
-- that was made for a level is in the queue of threads of this level, which is never longer than
-- the limit of a level, which is 32 at most.
pub Steps-thread_count :
    (limit id0 id1 id level : ℕ) (place : Place) (s : Scheduler) (es : List Event)
    → Steps (new_scheduler limit id0 id1) es s
    → s.is_cancel ≡ false
    → s.worker id ≡ some (level, place)
    → (has id (s.threads level) ≡ true)
      × (length (s.threads level) ≤ thread_count limit)
      × (thread_count limit ≤ 32)
Steps-thread_count limit id0 id1 id level place s es run active w =
    let start = new_scheduler limit id0 id1 in
    let listed = Steps-AllListed start s es run (new-AllListed limit id0 id1) in
    let k = Steps-InLimits (thread_count limit) start s es run (new-InLimits limit id0 id1) in
    (
      subst (Listed s.threads id) w (listed.workers active id),
      k.count level,
      (thread_count-bounds limit).1,
    )
