-- ===== src/PoolAllocator/Runs.antt =====
-- allocator_from_pool_for_node_bassed_containers.h: allocators that are made, copied, assigned,
-- swapped and destroyed in any order.
use garbage.Prelude.{
  ◌>>=◌, update, ℕ, ◌+◌, ◌-◌, ◌≡◌, refl, sym, subst, ap, ◌∙◌, Bool, true, false, [], ◌∷◌, List,
  Option, none, some, get_elem?, arith, ◌==◌, ==_iff, Bool-cases, inl, inr,
}
use garbage.PoolAllocator.{
  Counts, add_ref, intrusive_ptr_add_ref, preallocate, Allocators, set_at, remove_at,
  default_construct, copy_construct, assign, destruct, swap,
}
use garbage.PoolAllocator.Counts.{
  points, uses, count_of, Counted, update-Counted, same-Counted, add_ref_lem, release_lem,
  uses-set_at, uses-remove_at, points-uses, count_there, add_ref_at, get_elem?-set_at, zero_count,
}

-- Every pool has as its count the number of the allocators that share it, and its memory is
-- allocated exactly if there is one.
unfoldable pub IsCounted : Allocators → Type 0
IsCounted s = Counted s.counts (λ a. uses a s.impls)

pub data Call : Type 0 where
  default_constructs : Option ℕ → Bool → Call
  copies : ℕ → Call
  assigns : ℕ → ℕ → Call
  destructs : ℕ → Call
  swaps : ℕ → ℕ → Call

unfoldable pub apply : Allocators → Call → Option Allocators
unfolding default_construct copy_construct assign destruct swap
apply s (default_constructs memory succeeds) = default_construct s memory succeeds
apply s (copies i) = copy_construct s i
apply s (assigns i j) = assign s i j
apply s (destructs i) = destruct s i
apply s (swaps i j) = swap s i j

-- There is an allocator at a place, and new memory is not in use.
abbrev pub Has : Allocators → ℕ → Type 0
Has s i = (impl : Option ℕ) × (get_elem? s.impls i ≡ some impl)

abbrev pub IsNew : Allocators → Option ℕ → Type 0
IsNew s none = Unit
IsNew s (some a) = s.counts a ≡ none

abbrev pub CanApply : Allocators → Call → Type 0
CanApply s (default_constructs memory succeeds) = IsNew s memory
CanApply s (copies i) = Has s i
CanApply s (assigns i j) = Has s i × Has s j
CanApply s (destructs i) = Has s i
CanApply s (swaps i j) = Has s i × Has s j

abbrev pub Applied : Option Allocators → Type 0
Applied o = (s' : Allocators) × (o ≡ some s') × IsCounted s'

copy_construct-Applied :
    (s : Allocators) (i : ℕ) → IsCounted s → Has s i → Applied (copy_construct s i)
unfolding IsCounted copy_construct
copy_construct-Applied s i h (impl, e) =
    let (counts, runs, k) =
      add_ref_lem s.counts (λ a. uses a s.impls) impl h (λ a. points-uses a s.impls i impl e) in
    (
      record { impls = impl ∷ s.impls; counts = counts },
      rw (e, runs) refl,
      same-Counted counts (λ a. uses a s.impls + points a impl) (λ a. uses a (impl ∷ s.impls)) k
          (λ a. omega arith),
    )

destruct-Applied : (s : Allocators) (i : ℕ) → IsCounted s → Has s i → Applied (destruct s i)
unfolding IsCounted destruct
destruct-Applied s i h (impl, e) =
    let (counts, runs, k) =
      release_lem s.counts (λ a. uses a s.impls) impl h (λ a. points-uses a s.impls i impl e) in
    (
      record { impls = remove_at s.impls i; counts = counts },
      rw (e, runs) refl,
      same-Counted counts (λ a. uses a s.impls - points a impl) (λ a. uses a (remove_at s.impls i))
          k (λ a. omega (arith, uses-remove_at a s.impls i impl e)),
    )

assign-Applied :
    (s : Allocators) (i j : ℕ) → IsCounted s → Has s i → Has s j → Applied (assign s i j)
unfolding IsCounted assign
assign-Applied s i j h (old, d) (impl, e) =
    let (counts, adds, k) =
      add_ref_lem s.counts (λ a. uses a s.impls) impl h (λ a. points-uses a s.impls j impl e) in
    let (counts', releases, l) =
      release_lem counts (λ a. uses a s.impls + points a impl) old k
        (λ a. omega (arith, points-uses a s.impls i old d)) in
    (
      record { impls = set_at s.impls i impl; counts = counts' },
      rw (d, e, adds, releases) refl,
      same-Counted counts' (λ a. uses a s.impls + points a impl - points a old)
          (λ a. uses a (set_at s.impls i impl)) l
          (λ a. omega (arith, uses-set_at a s.impls i old impl d)),
    )

swap-Applied : (s : Allocators) (i j : ℕ) → IsCounted s → Has s i → Has s j → Applied (swap s i j)
unfolding IsCounted swap
swap-Applied s i j h (l, d) (r, e) = (
  record s { impls = set_at (set_at s.impls i r) j l },
  rw (d, e) refl,
  same-Counted s.counts (λ a. uses a s.impls) (λ a. uses a (set_at (set_at s.impls i r) j l)) h
      (λ a. omega (
        arith,
        uses-set_at a s.impls i l r d,
        uses-set_at a (set_at s.impls i r) j r l (get_elem?-set_at s.impls i j r e),
      )),
)

-- New memory, which no allocator shares, with a count of its own.
first_count :
    (counts : Counts) (a : ℕ)
    → add_ref (update counts a (some 0)) a ≡ some (update (update counts a (some 0)) a (some 1))
first_count counts a = add_ref_at (update counts a (some 0)) a 0 (rw ((==_iff a a).1 refl) refl)

new-Counted :
    (counts : Counts) (impls : List (Option ℕ)) (a : ℕ)
    → Counted counts (λ b. uses b impls)
    → counts a ≡ none
    → Counted (update (update counts a (some 0)) a (some 1)) (λ b. uses b (some a ∷ impls))
unfolding Counted
new-Counted counts impls a h e b =
    let unused : uses a impls ≡ 0 = zero_count (uses a impls) (sym e ∙ h a) in
    elim (Bool-cases (b == a)) [
      | inl here ↦
          let same : b ≡ a = ground arith in
          rw here (
            ap count_of {x = 1} {y = 1 + uses b impls}
              (omega (arith, unused, ap (λ x. uses x impls) same)))
      | inr other ↦
          rw other (h b ∙ ap count_of {x = uses b impls} {y = 0 + uses b impls} (omega arith))
    ]

default_construct-Applied :
    (s : Allocators) (memory : Option ℕ) (succeeds : Bool)
    → IsCounted s
    → IsNew s memory
    → Applied (default_construct s memory succeeds)
unfolding IsCounted default_construct preallocate intrusive_ptr_add_ref
default_construct-Applied s none succeeds h n = (
  record { impls = none ∷ s.impls; counts = s.counts },
  refl,
  same-Counted s.counts (λ b. uses b s.impls) (λ b. uses b (none ∷ s.impls)) h (λ b. omega arith),
)
default_construct-Applied s (some a) false h n = (
  record { impls = none ∷ s.impls; counts = update s.counts a none },
  refl,
  update-Counted s.counts (λ b. uses b s.impls) (λ b. uses b (none ∷ s.impls)) a none h
      (sym n
        ∙ count_there s.counts (λ b. uses b s.impls) a h
        ∙ ap count_of {x = uses a s.impls} {y = uses a (none ∷ s.impls)} (omega arith))
      (λ b other. omega arith),
)
default_construct-Applied s (some a) true h n = (
  record { impls = some a ∷ s.impls; counts = update (update s.counts a (some 0)) a (some 1) },
  rw (first_count s.counts a) refl,
  new-Counted s.counts s.impls a h n,
)

pub apply-Applied : (s : Allocators) (c : Call) → IsCounted s → CanApply s c → Applied (apply s c)
unfolding apply
apply-Applied s (default_constructs memory succeeds) h v =
    default_construct-Applied s memory succeeds h v
apply-Applied s (copies i) h v = copy_construct-Applied s i h v
apply-Applied s (assigns i j) h v = assign-Applied s i j h v.0 v.1
apply-Applied s (destructs i) h v = destruct-Applied s i h v
apply-Applied s (swaps i j) h v = swap-Applied s i j h v.0 v.1

unfoldable pub run : Allocators → List Call → Option Allocators
unfolding apply
run s [] = some s
run s (c ∷ calls) = do s' ← apply s c; run s' calls

abbrev pub After : Option Allocators → (Allocators → Type 0) → Type 0
After none P = Unit
After (some s) P = P s

-- Every call can be applied where it stands.
abbrev pub Follows : Allocators → List Call → Type 0
Follows s [] = Unit
Follows s (c ∷ calls) = CanApply s c × After (apply s c) (λ s'. Follows s' calls)

-- For allocators whose counts are right, and calls in any order that are on allocators that there
-- are and get new memory only: no count is touched in memory that is given back or goes below
-- zero, and after all calls the memory of every pool is allocated exactly if an allocator shares
-- it, with the number of these as its count.
pub run-IsCounted :
    (s : Allocators) (calls : List Call)
    → IsCounted s
    → Follows s calls
    → (s' : Allocators) × (run s calls ≡ some s') × IsCounted s'
unfolding run
run-IsCounted s [] h f = (s, refl, h)
run-IsCounted s (c ∷ calls) h f =
    let (s', runs, k) = apply-Applied s c h f.0 in
    let (s'', rest, l) =
      run-IsCounted s' calls k (subst (λ o. After o (λ t. Follows t calls)) runs f.1) in
    (s'', ap (λ o. o >>= (λ t. run t calls)) runs ∙ rest, l)
