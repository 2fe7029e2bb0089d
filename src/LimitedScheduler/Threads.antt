-- ===== src/LimitedScheduler/Threads.antt =====
-- Tx/PplxSchedulers/LimitedScheduler.cpp: the number of threads of a level, which `addThread` raises
-- and `close` lowers.
use garbage.Prelude.{
  ℕ, ◌≤◌, ◌≡◌, refl, sym, subst, ap, false, [], ◌∷◌, List, arith, length, length-append, update,
  leb, Bool-cases, inl, inr,
}
use garbage.LimitedScheduler.{
  Scheduler, thread_count, make_thread, new_scheduler, add_thread_locked,
}
use garbage.LimitedScheduler.Steps.{
  Event, Step, calls_schedule, pushes, wants, wants_none, locks, inserts_state, inserts_level,
  returns, waits, wakes, takes, finishes, drains, cancels, pops_thread, joins, joins_next_level,
  closes, Steps, done, and_then,
}

-- Between 2 and 32 threads for each level, whatever the limit.
pub thread_count-bounds : (limit : ℕ) → (2 ≤ thread_count limit) × (thread_count limit ≤ 32)
unfolding thread_count
thread_count-bounds limit = ground arith

-- No level has more threads than `n`, which is its limit.
pub record InLimits (n : ℕ) (s : Scheduler) : Type 0 where
  pub limit : (level : ℕ) → s.limits level ≡ n
  pub count : (level : ℕ) → length (s.threads level) ≤ n

add_thread-InLimits :
    (n : ℕ) (s : Scheduler) (level id : ℕ)
    → InLimits n s
    → InLimits n (add_thread_locked s level id)
unfolding add_thread_locked make_thread
add_thread-InLimits n s level id k =
    elim (Bool-cases (leb (s.limits level) (length (s.threads level)))) [
      | inl full ↦ subst (InLimits n) (sym (rw (full, add_thread_locked) refl)) k
      | inr room ↦ subst (InLimits n) (sym (rw (room, add_thread_locked) refl)) (made room)
    ]
  where
    made :
        leb (s.limits level) (length (s.threads level)) ≡ false
        → InLimits n (make_thread s level id)
    made room = record {
      limit = k.limit;
      count = λ l.
          let here = k.count l in
          let there = length-append (s.threads level) (id ∷ []) in
          let same = k.limit level in ground arith;
    }

-- A thread is popped.
rest-InLimits :
    (n : ℕ) (s : Scheduler) (level id : ℕ) (rest : List ℕ)
    → InLimits n s
    → s.threads level ≡ id ∷ rest
    → InLimits n (record s { threads = update s.threads level rest })
rest-InLimits n s level id rest k e = record {
  limit = k.limit;
  count = λ l. let here = k.count l in let there = k.count level in ground (arith, ap length e);
}

Step-InLimits : (n : ℕ) (s s' : Scheduler) (e : Event) → Step s e s' → InLimits n s → InLimits n s'
Step-InLimits n s _ _ (calls_schedule c t l a) k = record { limit = k.limit; count = k.count }
Step-InLimits n s _ _ (pushes before after l t e) k = record { limit = k.limit; count = k.count }
Step-InLimits n s _ _ (wants before after l e w) k = record { limit = k.limit; count = k.count }
Step-InLimits n s _ _ (wants_none before after l e w) k = record {
  limit = k.limit;
  count = k.count;
}
Step-InLimits n s _ _ (locks before after l id e f) k =
    let added = add_thread-InLimits n s l id k in
    record { limit = added.limit; count = added.count }
Step-InLimits n s _ _ (inserts_state id l w) k = record { limit = k.limit; count = k.count }
Step-InLimits n s _ _ (inserts_level id l w) k = record { limit = k.limit; count = k.count }
Step-InLimits n s _ _ (returns id l w c) k = record { limit = k.limit; count = k.count }
Step-InLimits n s _ _ (waits id l w c) k = record { limit = k.limit; count = k.count }
Step-InLimits n s _ _ (wakes id l w c) k = record { limit = k.limit; count = k.count }
Step-InLimits n s _ _ (takes id l t rest w e) k = record { limit = k.limit; count = k.count }
Step-InLimits n s _ _ (finishes id l t w) k = record { limit = k.limit; count = k.count }
Step-InLimits n s _ _ (drains id l w e) k = record { limit = k.limit; count = k.count }
Step-InLimits n s _ _ (cancels e) k = record { limit = k.limit; count = k.count }
Step-InLimits n s _ _ (pops_thread l id rest c j e b) k =
    let fewer = rest-InLimits n s l id rest k e in
    record { limit = fewer.limit; count = fewer.count }
Step-InLimits n s _ _ (joins id l j r) k = record { limit = k.limit; count = k.count }
Step-InLimits n s _ _ (joins_next_level l c j e b) k = record { limit = k.limit; count = k.count }
Step-InLimits n s _ _ (closes c) k = record { limit = k.limit; count = k.count }

pub Steps-InLimits :
    (n : ℕ) (s s' : Scheduler) (es : List Event) → Steps s es s' → InLimits n s → InLimits n s'
Steps-InLimits n s _ _ done k = k
Steps-InLimits n s s'' _ (and_then {s' = s'} {e = e} {es = es} step rest) k =
    Steps-InLimits n s' s'' es rest (Step-InLimits n s s' e step k)

pub new-InLimits : (limit id0 id1 : ℕ) → InLimits (thread_count limit) (new_scheduler limit id0 id1)
unfolding new_scheduler make_thread
new-InLimits limit id0 id1 = record {
  limit = λ level. refl;
  count = λ level. let few = thread_count-bounds limit in ground arith;
}
