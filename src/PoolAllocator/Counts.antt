-- ===== src/PoolAllocator/Counts.antt =====
-- allocator_from_pool_for_node_bassed_containers.h: the count of a pool, and the allocators that
-- share it.
use garbage.Prelude.{
  update, ℕ, zero, suc, ◌+◌, ◌-◌, ◌≤◌, ◌≡◌, refl, sym, ap, ◌∙◌, false, [], ◌∷◌, List, Option, none,
  some, get_elem?, arith, if◌then◌else◌, ◌==◌, ==_iff, Bool-cases, inl, inr,
}
use garbage.PoolAllocator.{
  Counts, add_ref, release, intrusive_ptr_add_ref, intrusive_ptr_release, set_at, remove_at,
}

-- How many allocators share the pool at `a`.
abbrev pub points : ℕ → Option ℕ → ℕ
points a none = 0
points a (some b) = if a == b then 1 else 0

abbrev pub uses : ℕ → List (Option ℕ) → ℕ
uses a [] = 0
uses a (impl ∷ impls) = points a impl + uses a impls

-- Memory is given back at 0.
abbrev pub count_of : ℕ → Option ℕ
count_of zero = none
count_of (suc n) = some (suc n)

-- A numbering `f` of the allocators of each pool is what the counts say.
unfoldable pub Counted : Counts → (ℕ → ℕ) → Type 0
Counted counts f = (a : ℕ) → counts a ≡ count_of (f a)

-- The count of one pool changes.
pub update-Counted :
    (counts : Counts) (f g : ℕ → ℕ) (b : ℕ) (v : Option ℕ)
    → Counted counts f
    → v ≡ count_of (g b)
    → ((a : ℕ) → (a == b) ≡ false → g a ≡ f a)
    → Counted (update counts b v) g
unfolding Counted
update-Counted counts f g b v h e k a = elim (Bool-cases (a == b)) [
  | inl here ↦ let same : a ≡ b = ground arith in rw here (e ∙ ap (λ x. count_of (g x)) (sym same))
  | inr other ↦ rw other (h a ∙ ap count_of (sym (k a other)))
]

-- The counts are those of another numbering with the same numbers.
pub same-Counted :
    (counts : Counts) (f g : ℕ → ℕ) → Counted counts f → ((a : ℕ) → g a ≡ f a) → Counted counts g
unfolding Counted
same-Counted counts f g h k a = h a ∙ ap count_of (sym (k a))

pub count_there :
    (counts : Counts) (f : ℕ → ℕ) (a : ℕ) → Counted counts f → counts a ≡ count_of (f a)
unfolding Counted
count_there counts f a h = h a

pub points_here : (b : ℕ) → points b (some b) ≡ 1
points_here b = rw ((==_iff b b).1 refl) refl

pub points_other : (a b : ℕ) → (a == b) ≡ false → points a (some b) ≡ 0
points_other a b e = rw e refl

-- A count that is there.
pub add_ref_at :
    (counts : Counts) (b n : ℕ)
    → counts b ≡ some n
    → add_ref counts b ≡ some (update counts b (some (suc n)))
unfolding add_ref
add_ref_at counts b n e = rw (e, add_ref) refl

release_last :
    (counts : Counts) (b : ℕ) → counts b ≡ some 1 → release counts b ≡ some (update counts b none)
unfolding release
release_last counts b e = rw (e, release) refl

release_other :
    (counts : Counts) (b n : ℕ)
    → counts b ≡ some (suc (suc n))
    → release counts b ≡ some (update counts b (some (suc n)))
unfolding release
release_other counts b n e = rw (e, release) refl

Counted-at :
    (counts : Counts) (f : ℕ → ℕ) (b n : ℕ)
    → Counted counts f
    → f b ≡ suc n
    → counts b ≡ some (suc n)
unfolding Counted
Counted-at counts f b n h e = h b ∙ ap count_of e

-- `add_ref` and `release` of a pool that is shared `n` times.
adds :
    (counts : Counts) (f : ℕ → ℕ) (b n : ℕ)
    → Counted counts f
    → f b ≡ suc n
    → (counts' : Counts) × (add_ref counts b ≡ some counts')
      × Counted counts' (λ a. f a + points a (some b))
adds counts f b n h e = (
  update counts b (some (suc (suc n))),
  add_ref_at counts b (suc n) (Counted-at counts f b n h e),
  update-Counted counts f (λ a. f a + points a (some b)) b (some (suc (suc n))) h
      (ap count_of {x = suc (suc n)} {y = f b + points b (some b)}
        (omega (arith, e, points_here b)))
      (λ a other. omega (arith, points_other a b other)),
)

releases :
    (counts : Counts) (f : ℕ → ℕ) (b n : ℕ)
    → Counted counts f
    → f b ≡ suc n
    → (counts' : Counts) × (release counts b ≡ some counts')
      × Counted counts' (λ a. f a - points a (some b))
releases counts f b zero h e = (
  update counts b none,
  release_last counts b (Counted-at counts f b 0 h e),
  update-Counted counts f (λ a. f a - points a (some b)) b none h
      (ap count_of {x = 0} {y = f b - points b (some b)} (omega (arith, e, points_here b)))
      (λ a other. omega (arith, points_other a b other)),
)
releases counts f b (suc n) h e = (
  update counts b (some (suc n)),
  release_other counts b n (Counted-at counts f b (suc n) h e),
  update-Counted counts f (λ a. f a - points a (some b)) b (some (suc n)) h
      (ap count_of {x = suc n} {y = f b - points b (some b)} (omega (arith, e, points_here b)))
      (λ a other. omega (arith, points_other a b other)),
)

positive : (n : ℕ) → 1 ≤ n → (m : ℕ) × (n ≡ suc m)
positive zero h = absurd (omega arith)
positive (suc m) h = (m, refl)

pub add_ref_lem :
    (counts : Counts) (f : ℕ → ℕ) (impl : Option ℕ)
    → Counted counts f
    → ((a : ℕ) → points a impl ≤ f a)
    → (counts' : Counts) × (intrusive_ptr_add_ref counts impl ≡ some counts')
      × Counted counts' (λ a. f a + points a impl)
unfolding intrusive_ptr_add_ref
add_ref_lem counts f none h p =
    (counts, refl, same-Counted counts f (λ a. f a + 0) h (λ a. omega arith))
add_ref_lem counts f (some b) h p =
    let (n, e) = positive (f b) (omega (arith, p b, points_here b)) in adds counts f b n h e

pub release_lem :
    (counts : Counts) (f : ℕ → ℕ) (impl : Option ℕ)
    → Counted counts f
    → ((a : ℕ) → points a impl ≤ f a)
    → (counts' : Counts) × (intrusive_ptr_release counts impl ≡ some counts')
      × Counted counts' (λ a. f a - points a impl)
unfolding intrusive_ptr_release
release_lem counts f none h p =
    (counts, refl, same-Counted counts f (λ a. f a - 0) h (λ a. omega arith))
release_lem counts f (some b) h p =
    let (n, e) = positive (f b) (omega (arith, p b, points_here b)) in releases counts f b n h e

-- The first of a list.
first_points :
    (a : ℕ) (x old : Option ℕ)
    → ◌≡◌ {A = Option (Option ℕ)} (some x) (some old)
    → points a x ≡ points a old
first_points a x old e = ap (λ o. elim o [ none ↦ points a x | some y ↦ points a y ]) e

-- How many allocators share a pool, after a change of one of them.
pub uses-set_at :
    (a : ℕ) (impls : List (Option ℕ)) (i : ℕ) (old impl : Option ℕ)
    → get_elem? impls i ≡ some old
    → uses a (set_at impls i impl) + points a old ≡ uses a impls + points a impl
uses-set_at a [] i old impl e = cc
uses-set_at a (x ∷ impls) zero old impl e = omega (arith, first_points a x old e)
uses-set_at a (x ∷ impls) (suc i) old impl e = omega (arith, uses-set_at a impls i old impl e)

pub uses-remove_at :
    (a : ℕ) (impls : List (Option ℕ)) (i : ℕ) (old : Option ℕ)
    → get_elem? impls i ≡ some old
    → uses a (remove_at impls i) + points a old ≡ uses a impls
uses-remove_at a [] i old e = cc
uses-remove_at a (x ∷ impls) zero old e = omega (arith, first_points a x old e)
uses-remove_at a (x ∷ impls) (suc i) old e = omega (arith, uses-remove_at a impls i old e)

-- An allocator that is there counts.
pub points-uses :
    (a : ℕ) (impls : List (Option ℕ)) (i : ℕ) (impl : Option ℕ)
    → get_elem? impls i ≡ some impl
    → points a impl ≤ uses a impls
points-uses a impls i impl e = omega (arith, uses-remove_at a impls i impl e)

-- The pool that an allocator shares is the same after another, or itself, was set to share it.
pub get_elem?-set_at :
    (impls : List (Option ℕ)) (i j : ℕ) (r : Option ℕ)
    → get_elem? impls j ≡ some r
    → get_elem? (set_at impls i r) j ≡ some r
get_elem?-set_at [] i j r e = cc
get_elem?-set_at (x ∷ impls) zero zero r e = refl
get_elem?-set_at (x ∷ impls) zero (suc j) r e = e
get_elem?-set_at (x ∷ impls) (suc i) zero r e = e
get_elem?-set_at (x ∷ impls) (suc i) (suc j) r e = get_elem?-set_at impls i j r e

pub zero_count : (n : ℕ) → none ≡ count_of n → n ≡ 0
zero_count zero e = refl
zero_count (suc n) e = cc
