-- ===== src/ExceptionTracker/Reentry.antt =====
-- ExceptionTracker.cpp: the counts of the handler, where exceptions are raised while it runs.
use garbage.Prelude.{
  ℕ, ◌+◌, ◌-◌, ◌≡◌, refl, subst, sym, ◌∙◌, Bool, true, false, not, ◌&&◌, [], ◌∷◌, List, ◌==◌, leb,
  Bool-cases, inl, inr, arith, take,
}
use garbage.ExceptionTracker.{
  Piece, Setup, Tracker, Meanwhile, nothing_raised, caught_inside, thrown_out, cpp_exception_code,
  write, write_all, lock, unlock, entered, leave, set_last_error, tracker_handler, vectored_handler,
  carry_out,
}
use garbage.ExceptionTracker.Lists.{drop}

-- The depth of the handler and the holds of the loader lock are those before.
abbrev pub Keeps : Tracker → Tracker → Type 0
Keeps t u = (u.enter_count ≡ t.enter_count) × (u.held ≡ t.held)

Keeps-trans : (t u v : Tracker) → Keeps t u → Keeps u v → Keeps t v
Keeps-trans t u v k l = (l.0 ∙ k.0, l.1 ∙ k.1)

abbrev pub Keeper : (List Piece → Tracker → Tracker) → Type 0
Keeper work = (pieces : List Piece) (t : Tracker) → Keeps t (work pieces t)

pub write-Keeps : (setup : Setup) (piece : Piece) (t : Tracker) → Keeps t (write setup piece t)
unfolding write
write-Keeps setup piece t = (ground arith, ground arith)

pub write_all-Keeps :
    (setup : Setup) (pieces : List Piece) (t : Tracker) → Keeps t (write_all setup pieces t)
unfolding write_all
write_all-Keeps setup [] t = (refl, refl)
write_all-Keeps setup (piece ∷ pieces) t =
    Keeps-trans t (write setup piece t) (write_all setup (piece ∷ pieces) t)
      (write-Keeps setup piece t) (write_all-Keeps setup pieces (write setup piece t))

leave-enter_count : (t : Tracker) → (leave t).enter_count ≡ t.enter_count - 1
unfolding leave
leave-enter_count t = ground arith

leave-held : (t : Tracker) → (leave t).held ≡ t.held
unfolding leave
leave-held t = elim (Bool-cases (leb 1 t.enter_count)) [ inl e ↦ rw e refl | inr e ↦ rw e refl ]

module _ (setup : Setup) where
  entered-Keeps :
      (work : List Piece → Tracker → Tracker) (code : ℕ) (is_unhandled : Bool) (t : Tracker)
      → Keeper work
      → Keeps t (entered setup work code is_unhandled t)
  unfolding entered
  entered-Keeps work code is_unhandled t k = elim (Bool-cases (leb 3 t.enter_count)) [
    | inl e ↦ rw e (refl, refl)
    | inr e ↦ elim (Bool-cases (leb 2 t.enter_count)) [
      | inl f ↦ rw (e, f) (k _ t)
      | inr f ↦ rw (e, f) (k _ t)
    ]
  ]

  -- The state in which the handler that has the lock begins.
  abbrev pub entry : Tracker → Tracker
  entry t = record t { enter_count = t.enter_count + 1; locked = true; held = t.held + 1 }

  -- The state that such a handler leaves.
  abbrev pub exit : ℕ → Tracker → Tracker
  exit error t = record (leave t) { last_error = error; locked = false; held = (leave t).held - 1 }

  pub tracker_handler_locked :
      (work : List Piece → Tracker → Tracker) (code : ℕ) (is_unhandled : Bool) (t : Tracker)
      → setup.loader_lock ≡ true
      → tracker_handler setup work code is_unhandled t
        ≡ exit t.last_error (entered setup work code is_unhandled (entry t))
  unfolding tracker_handler lock unlock set_last_error
  tracker_handler_locked work code is_unhandled t e = rw e refl

  pub tracker_handler_unlocked :
      (work : List Piece → Tracker → Tracker) (code : ℕ) (is_unhandled : Bool) (t : Tracker)
      → setup.loader_lock ≡ false
      → tracker_handler setup work code is_unhandled t ≡ record t { locked = false }
  unfolding tracker_handler lock unlock set_last_error
  tracker_handler_unlocked work code is_unhandled t e = rw e refl

  pub tracker_handler-last_error :
      (work : List Piece → Tracker → Tracker) (code : ℕ) (is_unhandled : Bool) (t : Tracker)
      → (tracker_handler setup work code is_unhandled t).last_error ≡ t.last_error
  unfolding tracker_handler set_last_error
  tracker_handler-last_error work code is_unhandled t = refl

  exit-Keeps : (error : ℕ) (t u : Tracker) → Keeps (entry t) u → Keeps t (exit error u)
  exit-Keeps error t u k =
      (omega (arith, leave-enter_count u, k.0), omega (arith, leave-held u, k.1))

  tracker_handler-Keeps :
      (work : List Piece → Tracker → Tracker) (code : ℕ) (is_unhandled : Bool) (t : Tracker)
      → Keeper work
      → Keeps t (tracker_handler setup work code is_unhandled t)
  tracker_handler-Keeps work code is_unhandled t k = elim (Bool-cases setup.loader_lock) [
    | inl e ↦
        subst (λ u. Keeps t u) (sym (tracker_handler_locked work code is_unhandled t e))
          (exit-Keeps t.last_error t (entered setup work code is_unhandled (entry t))
            (entered-Keeps work code is_unhandled (entry t) k))
    | inr e ↦
        subst (λ u. Keeps t u) (sym (tracker_handler_unlocked work code is_unhandled t e))
          (refl, refl)
  ]

  pub vectored_handler-Keeps :
      (work : List Piece → Tracker → Tracker) (code : ℕ) (t : Tracker)
      → Keeper work
      → Keeps t (vectored_handler setup work code t)
  unfolding vectored_handler
  vectored_handler-Keeps work code t k = elim (Bool-cases setup.me) [
    | inl e ↦
        elim (Bool-cases (code == cpp_exception_code && not setup.dont_filter_cpp_exception)) [
          | inl f ↦ rw (e, f) (refl, refl)
          | inr f ↦ rw (e, f) (tracker_handler-Keeps work code false t k)
        ]
    | inr e ↦ rw e (refl, refl)
  ]

  pub carry_out-Keeps : (meanwhile : Meanwhile) → Keeper (carry_out setup meanwhile)
  unfolding carry_out
  carry_out-Keeps nothing_raised pieces t = write_all-Keeps setup pieces t
  carry_out-Keeps (caught_inside n code inner rest) pieces t =
      let u = write_all setup (take n pieces) t in
      let v = vectored_handler setup (carry_out setup inner) code u in
      Keeps-trans t v (carry_out setup rest (drop n pieces) v)
        (Keeps-trans t u v (write_all-Keeps setup (take n pieces) t)
          (vectored_handler-Keeps (carry_out setup inner) code u (carry_out-Keeps inner)))
        (carry_out-Keeps rest (drop n pieces) v)
  carry_out-Keeps (thrown_out n code inner) pieces t =
      let u = write_all setup (take n pieces) t in
      Keeps-trans t u (vectored_handler setup (carry_out setup inner) code u)
        (write_all-Keeps setup (take n pieces) t)
        (vectored_handler-Keeps (carry_out setup inner) code u (carry_out-Keeps inner))

-- Whatever exceptions are raised while the handler logs, caught or not, and however deep: it
-- leaves the depth of the handlers, the holds of the loader lock and the last error as they were.
pub tracker_handler-restores :
    (setup : Setup) (meanwhile : Meanwhile) (code : ℕ) (is_unhandled : Bool) (t : Tracker)
    → let u = tracker_handler setup (carry_out setup meanwhile) code is_unhandled t in
      (u.enter_count ≡ t.enter_count) × (u.held ≡ t.held) × (u.last_error ≡ t.last_error)
tracker_handler-restores setup meanwhile code is_unhandled t =
    let k =
      tracker_handler-Keeps setup (carry_out setup meanwhile) code is_unhandled t
        (carry_out-Keeps setup meanwhile) in
    (k.0, k.1, tracker_handler-last_error setup (carry_out setup meanwhile) code is_unhandled t)
