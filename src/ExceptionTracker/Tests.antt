-- ===== src/ExceptionTracker/Tests.antt =====
-- ExceptionTracker.cpp: an access violation, in whose handling others are raised.
use mathlib.Core.List.{Sublistᴰ}
use garbage.Prelude.{
  ℕ, ◌+◌, ◌*◌, ◌≤◌, ◌≡◌, refl, true, false, [], ◌∷◌, ◌++◌, List, some, length, if◌then◌else◌, ◌==◌,
}
use garbage.ExceptionTracker.{
  Piece, Setup, Tracker, on_output, on_after_load_modules, log_string_line, Meanwhile,
  nothing_raised, caught_inside, thrown_out, cpp_exception_code, report, tracker_handler, carry_out,
}
use garbage.ExceptionTracker.Reentry.{tracker_handler-restores}
use garbage.ExceptionTracker.Logging.{reached, raised}
use garbage.ExceptionTracker.Reports.{tracker_handler-reports}
use garbage.ExceptionTracker.Installing.{
  other_filter, untracked, not_installed, initialize_all, deinitialize, deinitialize-initialize,
}

abbrev a_setup : Setup
a_setup = record {
  me = true;
  dont_filter_cpp_exception = true;
  ntdll = true;
  loader_lock = true;
  format_message = λ code. "The instruction referenced memory.";
  callstack = on_after_load_modules ∷ on_output "main" ∷ [];
  error_of_write = 5;
}

abbrev a_log : List Piece
a_log = log_string_line " Logging started."

abbrev a_tracker : Tracker
a_tracker = record { file = some a_log; enter_count = 0; last_error = 2; locked = true; held = 1 }

-- A C++ exception is caught while the call stack is walked, and a second one ends the report. The
-- handling of the first one raises another.
abbrev three_raised : Meanwhile
three_raised =
    caught_inside 12 cpp_exception_code (thrown_out 1 3221225477 nothing_raised)
      (thrown_out 2 3221225477 nothing_raised)

tracker_handler-restores_example :
    let u = tracker_handler a_setup (carry_out a_setup three_raised) 3221225477 false a_tracker in
    (u.enter_count ≡ 0) × (u.held ≡ 1) × (u.last_error ≡ 2)
tracker_handler-restores_example =
    tracker_handler-restores a_setup three_raised 3221225477 false a_tracker

tracker_handler-reports_example :
    (added : List Piece) × ((tracker_handler a_setup
        (carry_out a_setup three_raised)
        3221225477
        false
        a_tracker).file
      ≡ some (a_log ++ added))
    × Sublistᴰ (reached three_raised (report a_setup 3221225477 false)) added
    × (length added
        ≤ length (reached three_raised (report a_setup 3221225477 false)) + 4 * raised three_raised)
tracker_handler-reports_example =
    tracker_handler-reports a_setup three_raised 3221225477 false a_tracker a_log refl refl refl

-- It removes the first handler with the handle.
abbrev remove_handler : ℕ → List ℕ → List ℕ
remove_handler handle [] = []
remove_handler handle (h ∷ handlers) =
    let rest = remove_handler handle handlers in if h == handle then handlers else h ∷ rest

deinitialize-initialize_example :
    let (process, trackers) =
      initialize_all
        ((4096, 77) ∷ (8192, 78) ∷ (4096, 79) ∷ [])
        (untracked (other_filter 3) (12 ∷ []))
        (λ tracker. not_installed) in
    deinitialize remove_handler process (trackers 4096) ≡ untracked (other_filter 3) (12 ∷ [])
deinitialize-initialize_example =
    deinitialize-initialize remove_handler 4096 77 (other_filter 3) (12 ∷ [])
      ((8192, 78) ∷ (4096, 79) ∷ []) (λ tracker. not_installed) refl
