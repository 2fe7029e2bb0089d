-- ===== src/InplaceFixedDeque/Laws.antt =====
-- inplace_fixed_deque.hpp: what a deque of given values is, and what `size`, `empty`, `full` and
-- `operator[]` say of it.
use garbage.Prelude.{
  ℕ, ◌+◌, ◌-◌, ◌<◌, ◌≤◌, ◌≡◌, List, if◌then◌else◌, leb, ◌==◌, length, arith, get_elem?,
}
use garbage.InplaceFixedDeque.{Deque, size_internal, full, empty}

-- The position in the sequence that a cell stands for, if the first is at `begin`.
abbrev pub place : ℕ → ℕ → ℕ → ℕ
place capacity begin p = if leb begin p then p - begin else p + capacity - begin

-- Where `n` values end: after the last if they do not go round, else at the last.
abbrev pub end_of : ℕ → ℕ → ℕ → ℕ
end_of capacity begin n = if leb (begin + n) capacity then begin + n else begin + n - capacity - 1

module _ {ℓ} {T : Type ℓ} where
  -- The deque holds `xs`: each of their cells holds its value, and every other cell is raw.
  pub record Models (capacity : ℕ) (d : Deque T) (xs : List T) : Type ℓ where
    pub inside : d.begin < capacity
    pub fits : length xs ≤ capacity
    pub ends : d.end ≡ end_of capacity d.begin (length xs)
    pub holds : (p : ℕ) → p < capacity → d.cells p ≡ get_elem? xs (place capacity d.begin p)

  pub size_internal-length :
      (capacity : ℕ) (d : Deque T) (xs : List T)
      → Models capacity d xs
      → size_internal capacity d ≡ length xs
  unfolding size_internal
  size_internal-length capacity d xs m =
      let e = m.ends in let i = m.inside in let f = m.fits in ground arith

  pub full_iff :
      (capacity : ℕ) (d : Deque T) (xs : List T)
      → Models capacity d xs
      → full capacity d ≡ (length xs == capacity)
  unfolding full
  full_iff capacity d xs m = let e = m.ends in let i = m.inside in let f = m.fits in ground arith

  pub empty_iff :
      (capacity : ℕ) (d : Deque T) (xs : List T)
      → Models capacity d xs
      → empty capacity d ≡ (length xs == 0)
  unfolding empty
  empty_iff capacity d xs m = let e = m.ends in let i = m.inside in let f = m.fits in ground arith
