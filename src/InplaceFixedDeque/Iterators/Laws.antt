-- ===== src/InplaceFixedDeque/Iterators/Laws.antt =====
-- inplace_fixed_deque.hpp: the arithmetic of the iterators.
use garbage.Prelude.{
  ℕ, zero, suc, ◌+◌, ◌-◌, ◌<◌, ◌≤◌, ◌≡◌, refl, ap, ◌∙◌, true, false, List, some, if◌then◌else◌, ltb,
  leb, ◌==◌, ==_iff, pos, arith, length, get_elem?, Bool-cases, inl, inr,
}
use garbage.InplaceFixedDeque.{Deque}
use garbage.InplaceFixedDeque.Laws.{Models, size_internal-length}
use garbage.InplaceFixedDeque.Reading.{subscript-value}
use garbage.InplaceFixedDeque.Iterators.{
  size_at, begin_at, dereference, advanced, advance, minus, distance_to,
}

advanced-minus :
    (size index gap : ℕ)
    → index ≤ size
    → gap ≤ index
    → advanced size index (minus gap) ≡ index - gap
unfolding advanced
advanced-minus size index zero b k = ground arith
advanced-minus size index (suc gap) b k = ground arith

advanced_there :
    (size i j : ℕ)
    → i ≤ size
    → j ≤ size
    → advanced size i (if leb i j then pos (j - i) else minus (i - j)) ≡ j
unfolding advanced
advanced_there size i j bi bj = elim (Bool-cases (leb i j)) [
  | inl later ↦ rw later (ground arith)
  | inr earlier ↦ rw earlier (advanced-minus size i (i - j) bi (omega arith) ∙ ground arith)
]

module _ {ℓ} {T : Type ℓ} where
  -- Advancing an iterator by its distance to another of the same deque gives that one, forwards
  -- and backwards, for indices from 0 to the size.
  pub advance-distance_to :
      (capacity : ℕ) (deques : ℕ → Deque T) (a i j : ℕ)
      → i ≤ size_at capacity deques a
      → j ≤ size_at capacity deques a
      → advance capacity deques
          (record { source = some a; index = i })
          (distance_to capacity deques
            (record { source = some a; index = i })
            (record { source = some a; index = j }))
        ≡ record { source = some a; index = j }
  unfolding advance distance_to
  advance-distance_to capacity deques a i j bi bj =
      let same : (a == a) ≡ true = (==_iff a a).1 refl in
      rw (same, distance_to)
        (ap (λ k. record { source = some a; index = k })
          (advanced_there (size_at capacity deques a) i j bi bj))

  -- The iterator i steps after the beginning of a deque reads the value at position i of the
  -- sequence that the deque holds.
  pub dereference-advance :
      (capacity : ℕ) (deques : ℕ → Deque T) (a : ℕ) (xs : List T) (i : ℕ)
      → Models capacity (deques a) xs
      → i < length xs
      → dereference capacity deques (advance capacity deques (begin_at capacity deques a) (pos i))
        ≡ get_elem? xs i
  unfolding dereference advance advanced
  dereference-advance capacity deques a xs i m b =
      let inside : ltb (size_at capacity deques a) (0 + i) ≡ false =
        ground (arith, size_internal-length capacity (deques a) xs m) in
      let start : 0 + i ≡ i = omega arith in
      rw (inside, start) (subscript-value capacity (deques a) xs i m b)
