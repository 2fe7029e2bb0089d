-- ===== src/PageAllocator/Laws.antt =====
-- mp/g/LowestLevelAllocator.h: what `Align` gives, and which pages `SetPagesAccess` reaches.
use garbage.Prelude.{
  ℕ, ◌+◌, ◌-◌, ◌%◌, ◌≤◌, ◌<◌, ◌≡◌, refl, sym, ap, ◌∙◌, true, ◌∷◌, arith, ◌∷◌, ◌==◌, ==_iff, leb,
  size_mod, Bool-cases, inl, inr, add_size-exact,
}
use native.Mathlib.Nat.{mod-add-mod, mod_self, mod-lt}
use garbage.PageAllocator.{align, is_aligned}

multiple : (value step : ℕ) → 0 < step → (value + (step - value % step)) % step ≡ 0
multiple value step b =
    sym (mod-add-mod value step (step - value % step))
    ∙ (ap (λ n. n % step) (omega (arith, mod-lt value b)) ∙ mod_self step)

-- For a step of at least 1 and a value that leaves room for it below 2^64: Align gives an aligned
-- value, not less than the given one and less than a step above it.
pub align-bounds :
    (value step : ℕ)
    → 1 ≤ step
    → value + step < size_mod
    → (is_aligned (align value step) step ≡ true)
      × (value ≤ align value step)
      × (align value step < value + step)
unfolding align is_aligned
align-bounds value step p b = elim (Bool-cases (leb step 1)) [
  | inl one ↦ rw one (refl, omega arith, omega arith)
  | inr more ↦ elim (Bool-cases (value % step == 0)) [
    | inl whole ↦ rw (more, whole) (whole, omega arith, omega arith)
    | inr part ↦
        let below = mod-lt value p in
        let up = add_size-exact value (step - value % step) (omega (arith, b)) in
        let positive : 1 ≤ value % step = ground (arith, part) in
        rw (more, part, up)
          ((==_iff _ 0).1 (multiple value step p), omega arith, omega (arith, below, positive))
  ]
]
