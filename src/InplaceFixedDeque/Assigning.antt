-- ===== src/InplaceFixedDeque/Assigning.antt =====
-- inplace_fixed_deque.hpp: `assign`.
use garbage.Prelude.{
  returns, throws, ℕ, ◌-◌, ◌<◌, ◌≤◌, ◌≡◌, refl, sym, ◌∙◌, [], ◌∷◌, ◌++◌, List, Option, none, some,
  if◌then◌else◌, length, arith, get_elem?, get_elem?_beyond, map, Bool-cases, inl, inr,
}
use garbage.ContainersUtility.Laws.{within}
use garbage.ContainersUtility.Copies.{uninitialized_copy_lem, uninitialized_copy_throws}
use garbage.InplaceFixedDeque.{Deque, assign}
use garbage.InplaceFixedDeque.Laws.{place, Models}
use garbage.InplaceFixedDeque.Clearing.{clear-Clears, raw-Models}

module _ {ℓ} {T : Type ℓ} where
  copied_place :
      (capacity : ℕ) (cells : ℕ → Option T) (ys : List T) (p : ℕ)
      → ((p : ℕ) → p < capacity → cells p ≡ none)
      → p < capacity
      → (if within 0 (length ys) p then get_elem? ys (p - 0) else cells p)
        ≡ get_elem? ys (place capacity 0 p)
  copied_place capacity cells ys p raw k =
      let at : place capacity 0 p ≡ p - 0 = ground arith in
      elim (Bool-cases (within 0 (length ys) p)) [
        | inl inside ↦ rw (inside, at) refl
        | inr outside ↦
            rw (outside, at) (raw p k ∙ sym (get_elem?_beyond ys (p - 0) (ground arith)))
      ]

  -- assign to a deque that holds a sequence, of at most capacity values that all can be copied,
  -- leaves a deque of these in their order, with the old ones destroyed.
  pub assign-replaces :
      (capacity : ℕ) (d : Deque T) (xs ys : List T)
      → Models capacity d xs
      → length ys ≤ capacity
      → (d' : Deque T) × (assign capacity d (map some ys) ≡ some (returns d' tt))
        × Models capacity d' ys
  unfolding assign
  assign-replaces capacity d xs ys m fits =
      let i = m.inside in
      let (cleared, runs, raw) = clear-Clears capacity d xs m in
      let (cells, copy_runs, copies) =
        uninitialized_copy_lem capacity cleared ys 0 capacity (omega arith) (omega arith)
          (λ p lo hi. raw p hi) in
      (
        record { cells = cells; begin = 0; end = length ys },
        rw (runs, copy_runs, assign) refl,
        record {
          inside = omega arith;
          fits = fits;
          ends = ground arith;
          holds = λ p k. copies p ∙ copied_place capacity cleared ys p raw k;
        },
      )

  -- Where a copy constructor throws during assign to a deque that holds a sequence, before the
  -- capacity is reached, the deque is left empty, with no old or new value alive.
  pub assign_throws :
      (capacity : ℕ) (d : Deque T) (xs ys : List T) (rest : List (Option T))
      → Models capacity d xs
      → length ys < capacity
      → (d' : Deque T) × (assign capacity d (map some ys ++ none ∷ rest) ≡ some (throws d'))
        × Models capacity d' []
  unfolding assign
  assign_throws capacity d xs ys rest m fits =
      let i = m.inside in
      let (cleared, runs, raw) = clear-Clears capacity d xs m in
      let (cells, copy_runs, same) =
        uninitialized_copy_throws capacity cleared ys rest 0 capacity (omega arith) (omega arith)
          (λ p lo hi. raw p hi) in
      (
        record { cells = cells; begin = 0; end = 0 },
        rw (runs, copy_runs, assign) refl,
        raw-Models capacity cells (omega arith) (λ p k. same p ∙ raw p k),
      )
