-- ===== src/PoolAllocator.antt =====
-- allocator_from_pool_for_node_bassed_containers.h and intrusive_ptr_support_stateless_allocators.h:
-- the allocator `apply` shares one pool among its copies by an intrusive reference count. The memory
-- allocator and the pool are parameters: whether they give memory comes with each call. A
-- `boost::intrusive_ptr` calls `add_ref` for each copy of a pointer and `release` for each that goes,
-- and neither for NULL. A count in memory that is not allocated, or below zero, is `none`.
pub mod Counts
pub mod Runs
pub mod Tests
use garbage.Prelude.{
  ◌>>=◌, update, ℕ, zero, suc, ◌+◌, Bool, true, false, [], ◌∷◌, List, Option, none, some, get_elem?,
}

-- `count_` of every `small_single_block_std_allocator_implementation` that is allocated.
abbrev pub Counts : Type 0
Counts = ℕ → Option ℕ

unfoldable pub add_ref : Counts → ℕ → Option Counts
add_ref counts a = elim (counts a) [ none ↦ none | some n ↦ some (update counts a (some (suc n))) ]

-- `release`, which gives the memory back at 0.
unfoldable pub release : Counts → ℕ → Option Counts
release counts a = elim (counts a) [
  | none ↦ none
  | some n ↦ elim n [
    | zero ↦ none
    | suc zero ↦ some (update counts a none)
    | suc (suc m) ↦ some (update counts a (some (suc m)))
  ]
]

-- The same for a pointer, which is NULL or an address.
unfoldable pub intrusive_ptr_add_ref : Counts → Option ℕ → Option Counts
unfolding add_ref
intrusive_ptr_add_ref counts none = some counts
intrusive_ptr_add_ref counts (some a) = add_ref counts a

unfoldable pub intrusive_ptr_release : Counts → Option ℕ → Option Counts
unfolding release
intrusive_ptr_release counts none = some counts
intrusive_ptr_release counts (some a) = release counts a

-- `preallocate`: the memory that `TStatelessMemoryAllocator` gives, and whether the constructor of
-- the pool succeeds. It gives the counts and the new `_impl`.
unfoldable pub preallocate : Counts → Option ℕ → Option ℕ → Bool → Option (Counts × Option ℕ)
unfolding intrusive_ptr_add_ref
preallocate counts (some impl) memory succeeds = some (counts, some impl)
preallocate counts none none succeeds = some (counts, none)
preallocate counts none (some a) false = some (update counts a none, none)
preallocate counts none (some a) true = do
  counts' ← intrusive_ptr_add_ref (update counts a (some 0)) (some a)
  some (counts', some a)

-- What `allocate` of the pool does: it gives a pointer, or raises an exception.
pub data PoolResult : Type 0 where
  gives : Option ℕ → PoolResult
  raises : PoolResult

-- `allocate`, whose only exception is `std::bad_alloc`.
pub data Allocation : Type 0 where
  allocated : ℕ → Allocation
  bad_alloc : Allocation

unfoldable pub allocate : Option ℕ → (ℕ → PoolResult) → Allocation
allocate none pool = bad_alloc
allocate (some impl) pool = elim (pool impl) [
  | gives none ↦ bad_alloc
  | gives (some p) ↦ allocated p
  | raises ↦ bad_alloc
]

-- `deallocate`: the pointer that goes to the pool, if any. Without a pool it is undefined.
unfoldable pub deallocate : Option ℕ → Option ℕ → Option (Option ℕ)
deallocate none p = none
deallocate (some impl) p = some p

-- `max_size`, where the pool says how many items are free.
unfoldable pub max_size : ℕ → Option ℕ → (ℕ → ℕ) → ℕ
max_size max_item_amount none amount_of_free_item = max_item_amount
max_size max_item_amount (some impl) amount_of_free_item = amount_of_free_item impl

-- The allocators that there are, as their `_impl`, and the counts.
pub record Allocators : Type 0 where
  pub impls : List (Option ℕ)
  pub counts : Counts

abbrev pub set_at {ℓ} : {A : Type ℓ} → List A → ℕ → A → List A
set_at [] i x = []
set_at (y ∷ ys) zero x = x ∷ ys
set_at (y ∷ ys) (suc i) x = y ∷ set_at ys i x

abbrev pub remove_at {ℓ} : {A : Type ℓ} → List A → ℕ → List A
remove_at [] i = []
remove_at (y ∷ ys) zero = ys
remove_at (y ∷ ys) (suc i) = y ∷ remove_at ys i

-- The constructor `apply()`: `silentPreallocate`
unfoldable pub default_construct : Allocators → Option ℕ → Bool → Option Allocators
unfolding preallocate
default_construct s memory succeeds = do
  (counts, impl) ← preallocate s.counts none memory succeeds
  some (record { impls = impl ∷ s.impls; counts = counts })

-- The copy constructors, from the allocator at `i`.
unfoldable pub copy_construct : Allocators → ℕ → Option Allocators
unfolding intrusive_ptr_add_ref
copy_construct s i = do
  impl ← get_elem? s.impls i
  counts ← intrusive_ptr_add_ref s.counts impl
  some (record { impls = impl ∷ s.impls; counts = counts })

-- `operator=`, from the allocator at `j` to that at `i`.
unfoldable pub assign : Allocators → ℕ → ℕ → Option Allocators
unfolding intrusive_ptr_add_ref intrusive_ptr_release
assign s i j = do
  old ← get_elem? s.impls i
  impl ← get_elem? s.impls j
  counts ← intrusive_ptr_add_ref s.counts impl
  counts' ← intrusive_ptr_release counts old
  some (record { impls = set_at s.impls i impl; counts = counts' })

-- The destructor.
unfoldable pub destruct : Allocators → ℕ → Option Allocators
unfolding intrusive_ptr_release
destruct s i = do
  impl ← get_elem? s.impls i
  counts ← intrusive_ptr_release s.counts impl
  some (record { impls = remove_at s.impls i; counts = counts })

unfoldable pub swap : Allocators → ℕ → ℕ → Option Allocators
swap s i j = do
  l ← get_elem? s.impls i
  r ← get_elem? s.impls j
  some (record s { impls = set_at (set_at s.impls i r) j l })
