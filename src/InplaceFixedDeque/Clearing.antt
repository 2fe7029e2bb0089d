-- ===== src/InplaceFixedDeque/Clearing.antt =====
-- inplace_fixed_deque.hpp: `clear`.
use garbage.Prelude.{
  ℕ, ◌+◌, ◌-◌, ◌<◌, ◌≤◌, ◌≡◌, refl, ◌∙◌, true, false, [], List, Option, none, some, leb, length,
  arith, get_elem?_beyond, get_elem?_within, Bool-cases, inl, inr,
}
use garbage.ContainersUtility.{destroy}
use garbage.ContainersUtility.Laws.{IsLive, within, IsCleared, destroy-IsCleared}
use garbage.InplaceFixedDeque.{Deque, clear}
use garbage.InplaceFixedDeque.Laws.{place, Models}

module _ {ℓ} {T : Type ℓ} where
  cell-IsLive :
      (capacity : ℕ) (d : Deque T) (xs : List T) (p : ℕ)
      → Models capacity d xs
      → p < capacity
      → place capacity d.begin p < length xs
      → IsLive d.cells p
  cell-IsLive capacity d xs p m k b =
      let (v, at) = get_elem?_within xs (place capacity d.begin p) b in (v, m.holds p k ∙ at)

  cell_raw :
      (capacity : ℕ) (d : Deque T) (xs : List T) (p : ℕ)
      → Models capacity d xs
      → p < capacity
      → length xs ≤ place capacity d.begin p
      → d.cells p ≡ none
  cell_raw capacity d xs p m k b = m.holds p k ∙ get_elem?_beyond xs _ b

  -- A run of `clear` that leaves no value.
  abbrev pub Clears : ℕ → Deque T → Type ℓ
  Clears capacity d =
      (cells : ℕ → Option T) × (clear capacity d
        ≡ some (record { cells = cells; begin = 0; end = 0 }))
      × ((p : ℕ) → p < capacity → cells p ≡ none)

  clear_straight :
      (capacity : ℕ) (d : Deque T) (xs : List T)
      → Models capacity d xs
      → leb d.begin d.end ≡ true
      → Clears capacity d
  unfolding clear
  clear_straight capacity d xs m straight =
      let e = m.ends in
      let i = m.inside in
      let f = m.fits in
      let (cells, runs, cleared) =
        destroy-IsCleared capacity (d.end - d.begin) d.cells d.begin (ground arith)
          (λ p lo hi. cell-IsLive capacity d xs p m (ground arith) (ground arith)) in
      (
        cells,
        rw (straight, runs, clear) refl,
        λ p k. elim (Bool-cases (within d.begin (d.end - d.begin) p)) [
          | inl inside ↦ cleared p ∙ rw inside refl
          | inr outside ↦ cleared p ∙ rw outside (cell_raw capacity d xs p m k (ground arith))
        ],
      )

  -- No cell holds a value after both `for_each` of a deque that goes round.
  lower_cell :
      (capacity : ℕ) (d : Deque T) (xs : List T) (upper cells : ℕ → Option T) (p : ℕ)
      → Models capacity d xs
      → leb d.begin d.end ≡ false
      → IsCleared d.cells d.begin (capacity - d.begin) upper
      → IsCleared upper 0 (d.end + 1) cells
      → p < capacity
      → cells p ≡ none
  lower_cell capacity d xs upper cells p m around cleared lower k =
      let e = m.ends in
      let i = m.inside in
      let f = m.fits in
      elim (Bool-cases (within 0 (d.end + 1) p)) [
        | inl inside ↦ lower p ∙ rw inside refl
        | inr outside ↦ elim (Bool-cases (within d.begin (capacity - d.begin) p)) [
          | inl inside ↦ lower p ∙ rw outside (cleared p ∙ rw inside refl)
          | inr outside' ↦
              lower p
              ∙ rw outside (cleared p ∙ rw outside' (cell_raw capacity d xs p m k (ground arith)))
        ]
      ]

  -- The second `for_each`, after the first.
  clear_lower :
      (capacity : ℕ) (d : Deque T) (xs : List T) (upper : ℕ → Option T)
      → Models capacity d xs
      → leb d.begin d.end ≡ false
      → IsCleared d.cells d.begin (capacity - d.begin) upper
      → (cells : ℕ → Option T) × (destroy capacity upper 0 (d.end + 1) ≡ some cells)
        × ((p : ℕ) → p < capacity → cells p ≡ none)
  clear_lower capacity d xs upper m around cleared =
      let e = m.ends in
      let i = m.inside in
      let f = m.fits in
      let live : (p : ℕ) → 0 ≤ p → p < 0 + (d.end + 1) → IsLive upper p = λ p lo hi.
        let outside : within d.begin (capacity - d.begin) p ≡ false = ground arith in
        let (v, at) = cell-IsLive capacity d xs p m (ground arith) (ground arith) in
        (v, cleared p ∙ rw outside at) in
      let (cells, runs, lower) =
        destroy-IsCleared capacity (d.end + 1) upper 0 (ground arith) live in
      (cells, runs, λ p k. lower_cell capacity d xs upper cells p m around cleared lower k)

  clear_around :
      (capacity : ℕ) (d : Deque T) (xs : List T)
      → Models capacity d xs
      → leb d.begin d.end ≡ false
      → Clears capacity d
  unfolding clear
  clear_around capacity d xs m around =
      let i = m.inside in
      let e = m.ends in
      let f = m.fits in
      let (upper, runs, cleared) =
        destroy-IsCleared capacity (capacity - d.begin) d.cells d.begin (ground arith)
          (λ p lo hi. cell-IsLive capacity d xs p m (ground arith) (ground arith)) in
      let (cells, runs', raw) = clear_lower capacity d xs upper m around cleared in
      (cells, rw (around, runs, runs', clear) refl, raw)

  pub clear-Clears :
      (capacity : ℕ) (d : Deque T) (xs : List T) → Models capacity d xs → Clears capacity d
  clear-Clears capacity d xs m = elim (Bool-cases (leb d.begin d.end)) [
    | inl straight ↦ clear_straight capacity d xs m straight
    | inr around ↦ clear_around capacity d xs m around
  ]

  pub raw-Models :
      (capacity : ℕ) (cells : ℕ → Option T)
      → 0 < capacity
      → ((p : ℕ) → p < capacity → cells p ≡ none)
      → Models capacity (record { cells = cells; begin = 0; end = 0 }) []
  raw-Models capacity cells b raw = record {
    inside = b;
    fits = omega arith;
    ends = ground arith;
    holds = raw;
  }

  -- clear of a deque that holds a sequence destroys every value once, nothing else, and leaves an
  -- empty deque.
  pub clear-empties :
      (capacity : ℕ) (d : Deque T) (xs : List T)
      → Models capacity d xs
      → (d' : Deque T) × (clear capacity d ≡ some d') × Models capacity d' []
  clear-empties capacity d xs m =
      let (cells, runs, raw) = clear-Clears capacity d xs m in
      (
        record { cells = cells; begin = 0; end = 0 },
        runs,
        raw-Models capacity cells (omega (arith, m.inside)) raw,
      )
