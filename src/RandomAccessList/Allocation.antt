-- ===== src/RandomAccessList/Allocation.antt =====
-- random_access_list.hpp: how the container gets and gives back the memory of its nodes. The
-- allocator is the caller's: an allocation comes as the address that it gives, or `none` if it
-- throws. `unwinding` says that the code runs while another exception is on its way, where
-- `uncaught_exception()` is true although nothing has been thrown here. Construction in memory that
-- is not raw, destruction of what is not there, and freeing free memory are undefined.
pub mod Laws
pub mod Gaps
pub mod Unwinding
pub mod Tests
use garbage.Prelude.{
  ◌>>=◌, Outcome, returns, throws, update, ℕ, Bool, true, false, [], ◌∷◌, ◌++◌, List, Option, none,
  some, if◌then◌else◌, ◌||◌,
}

-- What is at an address: `constructed` is an object without a value, such as a gap node.
pub data Cell : Type 0 where
  vacant : Cell
  raw : Cell
  constructed : Cell
  valued : Cell

abbrev pub Memory : Type 0
Memory = ℕ → Cell

-- The traits of the allocator.
unfoldable pub allocate : Memory → Option ℕ → Outcome Memory ℕ
allocate m none = throws m
allocate m (some a) = returns (update m a raw) a

unfoldable pub deallocate : Memory → ℕ → Option Memory
deallocate m a = elim (m a) [ vacant ↦ none | _ ↦ some (update m a vacant) ]

unfoldable pub construct : Memory → ℕ → Option Memory
construct m a = elim (m a) [ raw ↦ some (update m a constructed) | _ ↦ none ]

unfoldable pub destroy : Memory → ℕ → Option Memory
destroy m a = elim (m a) [ constructed ↦ some (update m a raw) | _ ↦ none ]

-- The constructor with `construct_t`, which throws in the value's own constructor or not at all.
unfoldable pub construct_with_value : Memory → ℕ → Bool → Option (Outcome Memory (Unit {0}))
construct_with_value m a succeeds = elim (m a) [
  | raw ↦ some (if succeeds then returns (update m a valued) tt else throws m)
  | _ ↦ none
]

unfoldable pub destruct_value : Memory → ℕ → Option Memory
destruct_value m a = elim (m a) [ valued ↦ some (update m a constructed) | _ ↦ none ]

-- `TDeleter` with `exactly_destroy_node_value`.
unfoldable pub delete_node : Memory → ℕ → Option Memory
unfolding destruct_value destroy deallocate
delete_node m a = do m' ← destruct_value m a; m'' ← destroy m' a; deallocate m'' a

-- `clear_and_dispose`
unfoldable pub clear_and_dispose : Memory → List ℕ → Option Memory
unfolding delete_node
clear_and_dispose m [] = some m
clear_and_dispose m (a ∷ nodes) = do m' ← delete_node m a; clear_and_dispose m' nodes

-- The scope exit of `makeNode`: `dealocateNodeIfRaisedException_Internal`.
unfoldable pub deallocate_node_if_raised_exception :
    Bool → ℕ → Outcome Memory (Unit {0}) → Option (Outcome Memory ℕ)
unfolding deallocate
deallocate_node_if_raised_exception unwinding a (throws m) = do
  m' ← deallocate m a
  some (throws m')
deallocate_node_if_raised_exception true a (returns m u) = do
  m' ← deallocate m a
  some (returns m' a)
deallocate_node_if_raised_exception false a (returns m u) = some (returns m a)

-- `makeNode`, where `succeeds` says whether the value's constructor does.
unfoldable pub make_node : Bool → Memory → Option ℕ × Bool → Option (Outcome Memory ℕ)
unfolding allocate construct_with_value deallocate_node_if_raised_exception
make_node unwinding m (address, succeeds) = elim (allocate m address) [
  | throws m' ↦ some (throws m')
  | returns m' a ↦ do
    o ← construct_with_value m' a succeeds
    deallocate_node_if_raised_exception unwinding a o
]

-- The loop of `insert` and its scope exit: `nodes` is `constructedNodesForStrongExeptionSafety`.
unfoldable pub construct_nodes :
    Bool → Memory → List (Option ℕ × Bool) → List ℕ → Option (Outcome Memory (List ℕ))
unfolding make_node clear_and_dispose
construct_nodes true m [] nodes = do m' ← clear_and_dispose m nodes; some (returns m' [])
construct_nodes false m [] nodes = some (returns m nodes)
construct_nodes unwinding m (made ∷ rest) nodes = do
  o ← make_node unwinding m made
  elim o [
    | throws m' ↦ do m'' ← clear_and_dispose m' nodes; some (throws m'')
    | returns m' a ↦ construct_nodes unwinding m' rest (nodes ++ a ∷ [])
  ]

-- `makeEmptyNode`, whose scope exit has a copy of the address.
unfoldable pub make_empty_node : Bool → Memory → Option ℕ → Option (Outcome Memory ℕ)
unfolding allocate construct deallocate_node_if_raised_exception
make_empty_node unwinding m address = elim (allocate m address) [
  | throws m' ↦ some (throws m')
  | returns m' a ↦ do
    m'' ← construct m' a
    deallocate_node_if_raised_exception unwinding a (returns m'' tt)
]

unfoldable pub delete_empty_node : Memory → ℕ → Option Memory
unfolding destroy deallocate
delete_empty_node m a = do m' ← destroy m a; deallocate m' a

-- The constructor of `TCacheAndAllocator`, after its first gap node.
unfoldable pub make_end : Bool → Memory → ℕ → Option ℕ → Option (Outcome Memory (ℕ × ℕ))
unfolding make_empty_node delete_empty_node
make_end unwinding m before_begin address = do
  o ← make_empty_node unwinding m address
  elim o [
    | throws m' ↦ do m'' ← delete_empty_node m' before_begin; some (throws m'')
    | returns m' e ↦ elim unwinding [
      | true ↦ do m'' ← delete_empty_node m' before_begin; some (returns m'' (before_begin, e))
      | false ↦ some (returns m' (before_begin, e))
    ]
  ]

unfoldable pub new_cache_and_allocator :
    Bool → Memory → Option ℕ → Option ℕ → Option (Outcome Memory (ℕ × ℕ))
unfolding make_empty_node make_end
new_cache_and_allocator unwinding m before_begin e = do
  o ← make_empty_node unwinding m before_begin
  elim o [ throws m' ↦ some (throws m') | returns m' a ↦ make_end unwinding m' a e ]

-- The destructor of `TCacheAndAllocator`
unfoldable pub delete_cache_and_allocator : Memory → ℕ × ℕ → Option Memory
unfolding delete_empty_node
delete_cache_and_allocator m (before_begin, e) = do
  m' ← delete_empty_node m before_begin
  delete_empty_node m' e

-- The deleter that `result` of `makeImplementation` has: `TDeleter` with `nothing_do`.
unfoldable pub delete_implementation : Memory → ℕ → Option Memory
unfolding destroy deallocate
delete_implementation m a = do m' ← destroy m a; deallocate m' a

-- `makeImplementation`: `result` has its deleter before the object is constructed. It returns the
-- address of the object and those of its gap nodes.
unfoldable pub make_implementation :
    Bool → Memory → Option ℕ → Option ℕ → Option ℕ → Option (Outcome Memory (ℕ × ℕ × ℕ))
unfolding allocate new_cache_and_allocator delete_implementation construct
make_implementation unwinding m address before_begin e = elim (allocate m address) [
  | throws m' ↦ some (throws m')
  | returns m' a ↦ do
    o ← new_cache_and_allocator unwinding m' before_begin e
    elim o [
      | throws m'' ↦ do m''' ← delete_implementation m'' a; some (throws m''')
      | returns m'' (b, e') ↦ do m''' ← construct m'' a; some (returns m''' (a, b, e'))
    ]
]
