-- ===== src/ExceptionTracker/Reports.antt =====
-- ExceptionTracker.cpp: what the handler logs, where exceptions are raised while it runs.
use mathlib.Core.List.{Sublistᴰ}
use garbage.Prelude.{
  ℕ, ◌+◌, ◌*◌, ◌≤◌, ◌≡◌, refl, ap, subst, sym, ◌∙◌, Bool, true, false, not, ◌&&◌, [], ◌++◌, List,
  some, ◌==◌, leb, Bool-cases, inl, inr, arith, take, length, append-nil,
}
use garbage.ExceptionTracker.{
  Piece, Setup, Tracker, Meanwhile, nothing_raised, caught_inside, thrown_out, cpp_exception_code,
  log_error, report, write_all, entered, tracker_handler, vectored_handler, carry_out,
}
use garbage.ExceptionTracker.Lists.{drop, Sublist-self, Sublist_nil}
use garbage.ExceptionTracker.Reentry.{
  write_all-Keeps, vectored_handler-Keeps, carry_out-Keeps, entry, exit, tracker_handler_locked,
  tracker_handler_unlocked,
}
use garbage.ExceptionTracker.Logging.{
  reached, extra, raised, Logs, write_all-file, leave-file, Logs-none, Logs-all, Logs-trans,
  Logs-file, extra_zero, extra_four, length-reached,
}

module _ (setup : Setup) where
  -- The handler at a depth logs at most so many pieces of an exception.
  abbrev Bounded : ℕ → ℕ → Type 0
  Bounded depth n =
      (inner : Meanwhile) (code : ℕ) (t : Tracker) (log : List Piece)
      → t.enter_count ≡ depth
      → t.file ≡ some log
      → Logs log [] n (vectored_handler setup (carry_out setup inner) code t)

  -- Some pieces, and then an exception.
  interrupted-Logs :
      (depth n k : ℕ)
      → Bounded depth n
      → (inner : Meanwhile) (code : ℕ) (pieces : List Piece) (t : Tracker) (log : List Piece)
      → t.enter_count ≡ depth
      → t.file ≡ some log
      → Logs log
          (take k pieces)
          n
          (vectored_handler setup (carry_out setup inner) code (write_all setup (take k pieces) t))
  interrupted-Logs depth n k b inner code pieces t log d f =
      let xs = take k pieces in
      let u = write_all setup xs t in
      let v = vectored_handler setup (carry_out setup inner) code u in
      subst (λ ys. Logs log ys n v) (append-nil xs)
        (Logs-trans log xs [] xs 0 n n v (Sublist-self xs) (omega arith) (omega arith) (
          b inner code u (log ++ xs) ((write_all-Keeps setup xs t).0 ∙ d)
            (write_all-file setup xs t log f)))

  carry_out-Logs :
      (depth n : ℕ)
      → Bounded depth n
      → (meanwhile : Meanwhile) (pieces : List Piece) (t : Tracker) (log : List Piece)
      → t.enter_count ≡ depth
      → t.file ≡ some log
      → Logs log (reached meanwhile pieces) (extra n meanwhile) (carry_out setup meanwhile pieces t)
  unfolding carry_out reached extra
  carry_out-Logs depth n b nothing_raised pieces t log d f =
      Logs-all log pieces 0 (write_all setup pieces t) (write_all-file setup pieces t log f)
  carry_out-Logs depth n b (caught_inside k code inner rest) pieces t log d f =
      let xs = take k pieces in
      let u = write_all setup xs t in
      let v = vectored_handler setup (carry_out setup inner) code u in
      let (us, e, s, l) = interrupted-Logs depth n k b inner code pieces t log d f in
      Logs-trans log xs (reached rest (drop k pieces)) us n (extra n rest) (n + extra n rest)
        (carry_out setup rest (drop k pieces) v) s l (omega arith)
        (carry_out-Logs depth n b rest (drop k pieces) v (log ++ us)
          ((vectored_handler-Keeps setup (carry_out setup inner) code u
              (carry_out-Keeps setup inner)).0
            ∙ (write_all-Keeps setup xs t).0
            ∙ d)
          e)
  carry_out-Logs depth n b (thrown_out k code inner) pieces t log d f =
      interrupted-Logs depth n k b inner code pieces t log d f

  tracker_handler-Logs :
      (log pieces : List Piece) (n : ℕ) (work : List Piece → Tracker → Tracker) (code : ℕ)
      (is_unhandled : Bool) (t : Tracker)
      → setup.loader_lock ≡ true
      → Logs log pieces n (entered setup work code is_unhandled (entry setup t))
      → Logs log pieces n (tracker_handler setup work code is_unhandled t)
  tracker_handler-Logs log pieces n work code is_unhandled t e h =
      let u = entered setup work code is_unhandled (entry setup t) in
      subst (λ v. Logs log pieces n v)
        (sym (tracker_handler_locked setup work code is_unhandled t e))
        (Logs-file log pieces n u (exit setup t.last_error u) (leave-file u) h)

  -- `VectoredHandler` logs nothing, or what the handler logs.
  vectored_handler-Logs :
      (n : ℕ) (work : List Piece → Tracker → Tracker) (code : ℕ) (t : Tracker) (log : List Piece)
      → t.file ≡ some log
      → Logs log [] n (entered setup work code false (entry setup t))
      → Logs log [] n (vectored_handler setup work code t)
  unfolding vectored_handler
  vectored_handler-Logs n work code t log f h = elim (Bool-cases setup.me) [
    | inl e ↦
        elim (Bool-cases (code == cpp_exception_code && not setup.dont_filter_cpp_exception)) [
          | inl g ↦ rw (e, g) (Logs-none log n t f)
          | inr g ↦ elim (Bool-cases setup.loader_lock) [
            | inl l ↦ rw (e, g) (tracker_handler-Logs log [] n work code false t l h)
            | inr l ↦
                rw (e, g)
                  (subst (λ v. Logs log [] n v)
                    (sym (tracker_handler_unlocked setup work code false t l))
                    (Logs-none log n (record t { locked = false }) f))
          ]
        ]
    | inr e ↦ rw e (Logs-none log n t f)
  ]

  -- What the handler does at each depth.
  entered_first :
      (work : List Piece → Tracker → Tracker) (code : ℕ) (is_unhandled : Bool) (t : Tracker)
      → t.enter_count ≡ 1
      → entered setup work code is_unhandled t ≡ work (report setup code is_unhandled) t
  unfolding entered
  entered_first work code is_unhandled t d = rw (ap (leb 3) d, ap (leb 2) d) refl

  entered_second :
      (work : List Piece → Tracker → Tracker) (code : ℕ) (is_unhandled : Bool) (t : Tracker)
      → t.enter_count ≡ 2
      → entered setup work code is_unhandled t
        ≡ work (log_error "Exception while stack trace logging!") t
  unfolding entered
  entered_second work code is_unhandled t d = rw (ap (leb 3) d, ap (leb 2) d) refl

  entered_third :
      (work : List Piece → Tracker → Tracker) (code : ℕ) (is_unhandled : Bool) (t : Tracker)
      → t.enter_count ≡ 3
      → entered setup work code is_unhandled t ≡ t
  unfolding entered
  entered_third work code is_unhandled t d = rw (ap (leb 3) d) refl

  -- The third handler says nothing, and the second one no more than an error.
  third-Bounded : Bounded 2 0
  third-Bounded inner code t log d f =
      let u = entry setup t in
      vectored_handler-Logs 0 (carry_out setup inner) code t log f (
        subst (λ v. Logs log [] 0 v)
          (sym (entered_third (carry_out setup inner) code false u (omega (arith, d))))
          (Logs-none log 0 u f))

  second-Bounded : Bounded 1 4
  second-Bounded inner code t log d f =
      let u = entry setup t in
      let pieces = log_error "Exception while stack trace logging!" in
      let (added, e, s, l) =
        carry_out-Logs 2 0 third-Bounded inner pieces u log (omega (arith, d)) f in
      vectored_handler-Logs 4 (carry_out setup inner) code t log f (
        subst (λ v. Logs log [] 4 v)
          (sym (entered_second (carry_out setup inner) code false u (omega (arith, d))))
          (
            added,
            e,
            Sublist_nil added,
            omega (arith, l, length-reached inner pieces, extra_zero inner),
          ))

-- For an open log, a thread that is in no handler, and the loader lock: whatever exceptions are
-- raised while the handler logs, and in their handling, it puts the pieces of its report that it
-- comes to at the end of the log in their order, and for each exception that is raised in it at
-- most four pieces among them.
pub tracker_handler-reports :
    (setup : Setup) (meanwhile : Meanwhile) (code : ℕ) (is_unhandled : Bool) (t : Tracker)
    (log : List Piece)
    → setup.loader_lock ≡ true
    → t.enter_count ≡ 0
    → t.file ≡ some log
    → (added : List Piece) × ((tracker_handler setup
          (carry_out setup meanwhile)
          code
          is_unhandled
          t).file
        ≡ some (log ++ added))
      × Sublistᴰ (reached meanwhile (report setup code is_unhandled)) added
      × (length added
          ≤ length (reached meanwhile (report setup code is_unhandled)) + 4 * raised meanwhile)
tracker_handler-reports setup meanwhile code is_unhandled t log e d f =
    let u = entry setup t in
    let pieces = report setup code is_unhandled in
    tracker_handler-Logs setup log (reached meanwhile pieces) (4 * raised meanwhile)
      (carry_out setup meanwhile) code is_unhandled t e
      (subst
        (λ n.
          Logs log (reached meanwhile pieces) n
            (entered setup (carry_out setup meanwhile) code is_unhandled u))
        (extra_four meanwhile)
        (subst (λ v. Logs log (reached meanwhile pieces) (extra 4 meanwhile) v)
          (sym (
            entered_first setup (carry_out setup meanwhile) code is_unhandled u (omega (arith, d))))
          (carry_out-Logs setup 1 4 (second-Bounded setup) meanwhile pieces u log (omega (arith, d))
            f)))
