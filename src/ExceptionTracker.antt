-- ===== src/ExceptionTracker.antt =====
-- Tx/StackWalker/ExceptionsUtils: the classes `ExceptionTracker` and `ExceptionsLogger`, and the lock
-- of Tx/StackWalker/StackWalker.cpp that the tracker takes. One thread handles exceptions, and others
-- may be raised while it does. The log is the list of the calls of `WriteFile`. A DWORD is a number.
pub mod Lists
pub mod Reentry
pub mod Logging
pub mod Reports
pub mod Installing
pub mod Tests
use Prim.Native.String.{String}
use garbage.Prelude.{
  ℕ, zero, suc, ◌+◌, ◌-◌, ◌*◌, Bool, true, false, not, ◌&&◌, [], ◌∷◌, ◌++◌, List, Option, none,
  some, if◌then◌else◌, ◌==◌, leb, take,
}
use garbage.ExceptionTracker.Lists.{drop}

-- A call of `WriteFile`: the time and thread of `logInfo`, a string, or a number in hexadecimal.
pub data Piece : Type 0 where
  time_and_thread : Piece
  string : String → Piece
  hex_unsigned : ℕ → Piece

-- What `ShowCallstack` calls of `ExceptionsStackWalker`
pub data Output : Type 0 where
  on_output : String → Output
  on_after_load_modules : Output

-- What stays as it is while exceptions are handled: whether there is `_me`, its field
-- `_dontFilterCPPException`, whether NTDLL.DLL and its functions are found, the text of
-- `FormatMessage` for a code, what `ShowCallstack` outputs, and the error that `WriteFile` leaves.
pub record Setup : Type 0 where
  pub me : Bool
  pub dont_filter_cpp_exception : Bool
  pub ntdll : Bool
  pub loader_lock : Bool
  pub format_message : ℕ → String
  pub callstack : List Output
  pub error_of_write : ℕ

-- `file` is `none` for INVALID_HANDLE_VALUE. `last_error` is that of the thread, and `held` counts the
-- calls of `LdrLockLoaderLock` that no call of `LdrUnlockLoaderLock` has undone.
pub record Tracker : Type 0 where
  pub file : Option (List Piece)
  pub enter_count : ℕ
  pub last_error : ℕ
  pub locked : Bool
  pub held : ℕ

-- What is raised while pieces are written: after some of them an exception with a code, in whose
-- handling others may be raised. It is caught inside, and the rest is written, or it leaves.
pub data Meanwhile : Type 0 where
  nothing_raised : Meanwhile
  caught_inside : ℕ → ℕ → Meanwhile → Meanwhile → Meanwhile
  thrown_out : ℕ → ℕ → Meanwhile → Meanwhile

abbrev pub cpp_exception_code : ℕ
cpp_exception_code = 3765269347

abbrev pub log_info : List Piece
log_info = time_and_thread ∷ []

abbrev pub log_string : String → List Piece
log_string str = string str ∷ []

abbrev pub log_end_line : List Piece
log_end_line = log_string "\r\n"

abbrev pub log_string_line : String → List Piece
log_string_line str = log_string str ++ log_end_line

abbrev pub log_error : String → List Piece
log_error str = log_info ++ log_string " Tracker error: " ++ log_string_line str

abbrev pub log_hex_unsigned : ℕ → List Piece
log_hex_unsigned value = hex_unsigned value ∷ []

-- The comparison with 0 is always true.
unfoldable pub severity : ℕ → String
severity exception_code =
    if leb exception_code 1073741823
    then "SUCCESS_EXCEPTION_STATUS"
    else if leb 1073741824 exception_code && leb exception_code 2147483647
    then "INFORMATION_EXCEPTION_STATUS"
    else if leb 2147483648 exception_code && leb exception_code 3221225471
    then "WARNING_EXCEPTION_STATUS"
    else "ERROR_EXCEPTION_STATUS"

unfoldable pub log_severity : ℕ → List Piece
unfolding severity
log_severity exception_code =
    log_string "[" ++ log_string (severity exception_code) ++ log_string "]"

unfoldable pub log_exception_info : Setup → ℕ → List Piece
log_exception_info setup exception_code = elim setup.ntdll [
  | true ↦
      log_string "Probably diagnostic message: "
      ++ log_string_line (setup.format_message exception_code)
  | false ↦ []
]

unfoldable pub show_callstack : List Output → List Piece
show_callstack [] = []
show_callstack (on_output sz_text ∷ outputs) = log_string sz_text ++ show_callstack outputs
show_callstack (on_after_load_modules ∷ outputs) =
    log_string_line "[Stack trace]:" ++ show_callstack outputs

-- What the handler logs of an exception.
unfoldable pub report : Setup → ℕ → Bool → List Piece
unfolding log_severity log_exception_info show_callstack
report setup exception_code is_unhandled =
    log_info
    ++ log_string " "
    ++ log_severity exception_code
    ++ (if exception_code == cpp_exception_code then log_string " C++" else [])
    ++ log_string (if is_unhandled then " Unhandled exception code: " else " Exception code: 0x")
    ++ log_hex_unsigned exception_code
    ++ log_end_line
    ++ log_exception_info setup exception_code
    ++ log_string_line "Symbols loading..."
    ++ show_callstack setup.callstack
    ++ log_string_line "End stack trace."

unfoldable pub write : Setup → Piece → Tracker → Tracker
write setup piece t = elim t.file [
  | none ↦ t
  | some log ↦ record t { file = some (log ++ piece ∷ []); last_error = setup.error_of_write }
]

unfoldable pub write_all : Setup → List Piece → Tracker → Tracker
unfolding write
write_all setup [] t = t
write_all setup (piece ∷ pieces) t = write_all setup pieces (write setup piece t)

-- `LoaderLock`, where `LdrLockLoaderLock` waits and succeeds. Its cookie goes back to it unread.
unfoldable pub lock : Setup → Tracker → Tracker
lock setup t = elim setup.loader_lock [
  | true ↦ record t { locked = true; held = t.held + 1 }
  | false ↦ record t { locked = false }
]

unfoldable pub unlock : Setup → Tracker → Tracker
unlock setup t = elim setup.loader_lock [
  | true ↦ record t { locked = false; held = t.held - 1 }
  | false ↦ record t { locked = false }
]

-- The handler after `++_enterCount`. `carry_out` writes its pieces, as far as it comes.
unfoldable pub entered : Setup → (List Piece → Tracker → Tracker) → ℕ → Bool → Tracker → Tracker
unfolding report
entered setup carry_out exception_code is_unhandled t =
    if leb 3 t.enter_count
    then t
    else if leb 2 t.enter_count
    then carry_out (log_error "Exception while stack trace logging!") t
    else carry_out (report setup exception_code is_unhandled) t

-- The second SCOPE_EXIT, the destructor of the locker and the first SCOPE_EXIT, on every path.
unfoldable pub leave : Tracker → Tracker
leave t = if leb 1 t.enter_count then record t { enter_count = t.enter_count - 1 } else t

unfoldable pub set_last_error : ℕ → Tracker → Tracker
set_last_error error t = record t { last_error = error }

-- `trackerHandler`. The handler is left the same way where `carry_out` was ended by an exception.
unfoldable pub tracker_handler :
    Setup → (List Piece → Tracker → Tracker) → ℕ → Bool → Tracker → Tracker
unfolding lock unlock entered leave set_last_error
tracker_handler setup carry_out exception_code is_unhandled t =
    let u = lock setup t in
    let v = record u { enter_count = u.enter_count + 1 } in
    let done = leave (entered setup carry_out exception_code is_unhandled v) in
    set_last_error t.last_error (unlock setup (if u.locked then done else u))

-- `VectoredHandler`. Its result is always EXCEPTION_CONTINUE_SEARCH.
unfoldable pub vectored_handler : Setup → (List Piece → Tracker → Tracker) → ℕ → Tracker → Tracker
unfolding tracker_handler
vectored_handler setup carry_out exception_code t =
    if not setup.me
    then t
    else if exception_code == cpp_exception_code && not setup.dont_filter_cpp_exception
    then t
    else tracker_handler setup carry_out exception_code false t

-- Pieces with what is raised meanwhile: the vectored handler runs first for every exception.
unfoldable pub carry_out : Setup → Meanwhile → List Piece → Tracker → Tracker
unfolding write_all vectored_handler
carry_out setup nothing_raised pieces t = write_all setup pieces t
carry_out setup (caught_inside n code inner rest) pieces t =
    carry_out setup rest (drop n pieces)
      (vectored_handler setup (carry_out setup inner) code (write_all setup (take n pieces) t))
carry_out setup (thrown_out n code inner) pieces t =
    vectored_handler setup (carry_out setup inner) code (write_all setup (take n pieces) t)

-- `UnhandledExceptionStackTraceFilter`, with its result, where 0 is EXCEPTION_CONTINUE_SEARCH
unfoldable pub unhandled_exception_stack_trace_filter :
    Setup → (List Piece → Tracker → Tracker) → Option (ℕ → ℕ) → ℕ → Tracker → Tracker × ℕ
unfolding tracker_handler
unhandled_exception_stack_trace_filter setup carry_out last_filter exception_code t =
    if not setup.me then (t, 0) else (
      tracker_handler setup carry_out exception_code true t,
      elim last_filter [ none ↦ 0 | some filter ↦ filter exception_code ],
    )
