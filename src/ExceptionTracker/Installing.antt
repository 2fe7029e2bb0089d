-- ===== src/ExceptionTracker/Installing.antt =====
-- ExceptionTracker.cpp: `initialize`, `deinitialize` and the destructor, which calls it. The state is
-- that of the process; the heap, the log and the stack walker that `initialize` makes are not in it.
use garbage.Prelude.{
  ℕ, ◌≡◌, refl, sym, ap, ap₂, ◌∙◌, [], ◌∷◌, List, Option, none, some, update, ◌==◌, ==_iff,
  Bool-cases, inl, inr,
}

-- A filter of unhandled exceptions. `no_filter` is nullptr.
pub data Filter : Type 0 where
  no_filter : Filter
  stack_trace_filter : Filter
  other_filter : ℕ → Filter

-- The static `_me`, as the address of a tracker, the filter that the process has, and the handles of
-- its vectored handlers, the first one first.
pub record Process : Type 0 where
  pub me : Option ℕ
  pub filter : Filter
  pub vectored_handlers : List ℕ

-- `_lastUnhandledExceptionFilter` and `_vectoredExceptionHandlerHandle` of one tracker
pub record Installed : Type 0 where
  pub last_unhandled_exception_filter : Filter
  pub vectored_exception_handler_handle : Option ℕ

-- A tracker after its constructor.
abbrev pub not_installed : Installed
not_installed = record {
  last_unhandled_exception_filter = no_filter;
  vectored_exception_handler_handle = none;
}

-- A process in which no tracker is.
abbrev pub untracked : Filter → List ℕ → Process
untracked before handlers = record { me = none; filter = before; vectored_handlers = handlers }

-- `AddVectoredExceptionHandler` gives the handle.
unfoldable pub initialize : ℕ → ℕ → Process → Installed → Process × Installed
initialize this handle process installed = elim process.me [
  | some tracker ↦ (process, installed)
  | none ↦ (
    record {
      me = some this;
      filter = stack_trace_filter;
      vectored_handlers = handle ∷ process.vectored_handlers;
    },
    record {
      last_unhandled_exception_filter = process.filter;
      vectored_exception_handler_handle = some handle;
    },
  )
]

-- `RemoveVectoredExceptionHandler` is given as what it leaves of the handlers.
unfoldable pub deinitialize : (ℕ → List ℕ → List ℕ) → Process → Installed → Process
deinitialize remove_handler process installed = elim process.me [
  | none ↦ process
  | some tracker ↦ record {
    me = none;
    filter = installed.last_unhandled_exception_filter;
    vectored_handlers = elim installed.vectored_exception_handler_handle [
      | none ↦ process.vectored_handlers
      | some handle ↦ remove_handler handle process.vectored_handlers
    ];
  }
]

-- Calls of `initialize` of any trackers, each with its tracker and its handle. The members of the
-- trackers are a function of their addresses.
unfoldable pub initialize_all : List (ℕ × ℕ) → Process → (ℕ → Installed) → Process × (ℕ → Installed)
unfolding initialize
initialize_all [] process trackers = (process, trackers)
initialize_all ((this, handle) ∷ calls) process trackers =
    let (process', installed) = initialize this handle process (trackers this) in
    initialize_all calls process' (update trackers this installed)

-- A process in which a tracker is.
abbrev tracked : ℕ → Filter → List ℕ → Process
tracked this before handlers = record {
  me = some this;
  filter = before;
  vectored_handlers = handlers;
}

update_self : (trackers : ℕ → Installed) (a b : ℕ) → update trackers a (trackers a) b ≡ trackers b
update_self trackers a b = elim (Bool-cases (b == a)) [
  | inl here ↦ rw here (ap trackers (sym ((==_iff b a).0 here)))
  | inr other ↦ rw other refl
]

update_here :
    (trackers : ℕ → Installed) (a : ℕ) (installed : Installed)
    → update trackers a installed a ≡ installed
update_here trackers a installed = rw ((==_iff a a).1 refl) refl

initialize_all-Keeps :
    (calls : List (ℕ × ℕ)) (other : ℕ) (before : Filter) (handlers : List ℕ)
    (trackers : ℕ → Installed) (this : ℕ)
    → let (process, trackers') = initialize_all calls (tracked other before handlers) trackers in
      (process ≡ tracked other before handlers) × (trackers' this ≡ trackers this)
unfolding initialize_all initialize
initialize_all-Keeps [] other before handlers trackers this = (refl, refl)
initialize_all-Keeps ((tracker, handle) ∷ calls) other before handlers trackers this =
    let rest =
      initialize_all-Keeps calls other before handlers (update trackers tracker (trackers tracker))
        this in
    (rest.0, rest.1 ∙ update_self trackers tracker this)

-- Where the operating system removes the first of the vectored handlers by its handle: in a
-- process without a tracker, initialize of a tracker, any further calls of initialize, of it and
-- of others, and then deinitialize of the tracker leave the filter and the vectored handlers as
-- they were.
pub deinitialize-initialize :
    (remove_handler : ℕ → List ℕ → List ℕ) (this handle : ℕ) (before : Filter) (handlers : List ℕ)
    (calls : List (ℕ × ℕ)) (trackers : ℕ → Installed)
    → remove_handler handle (handle ∷ handlers) ≡ handlers
    → let (process, trackers') =
        initialize_all ((this, handle) ∷ calls) (untracked before handlers) trackers in
      deinitialize remove_handler process (trackers' this) ≡ untracked before handlers
unfolding deinitialize initialize_all initialize
deinitialize-initialize remove_handler this handle before handlers calls trackers removes =
    let installed : Installed = record {
      last_unhandled_exception_filter = before;
      vectored_exception_handler_handle = some handle;
    } in
    let k =
      initialize_all-Keeps calls this stack_trace_filter (handle ∷ handlers)
        (update trackers this installed) this in
    ap₂ (deinitialize remove_handler) k.0 (k.1 ∙ update_here trackers this installed)
    ∙ ap (untracked before) removes
