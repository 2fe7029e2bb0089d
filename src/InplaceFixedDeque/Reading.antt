-- ===== src/InplaceFixedDeque/Reading.antt =====
-- inplace_fixed_deque.hpp: `operator[]`.
use garbage.Prelude.{
  ℕ, ◌+◌, ◌-◌, ◌%◌, ◌<◌, ◌≤◌, ◌≡◌, ap, ◌∙◌, List, ltb, leb, length, arith, get_elem?, Bool-cases,
  inl, inr,
}
use native.Mathlib.Nat.{mod-eq_of_lt, mod-eq-sub-mod}
use garbage.InplaceFixedDeque.{Deque, subscript}
use garbage.InplaceFixedDeque.Laws.{place, Models}

mod_once : (x m : ℕ) → m ≤ x → x < m + m → x % m ≡ x - m
mod_once x m lo hi = mod-eq-sub-mod lo ∙ mod-eq_of_lt (omega arith)

module _ {ℓ} {T : Type ℓ} where
  -- operator[] at a position below the size reads the value at that position of the sequence,
  -- round the end of the array as well.
  pub subscript-value :
      (capacity : ℕ) (d : Deque T) (xs : List T) (index : ℕ)
      → Models capacity d xs
      → index < length xs
      → subscript capacity d index ≡ get_elem? xs index
  unfolding subscript
  subscript-value capacity d xs index m b =
      let e = m.ends in
      let i = m.inside in
      let f = m.fits in
      elim (Bool-cases (leb d.begin d.end)) [
        | inl straight ↦
            let here : place capacity d.begin (index + d.begin) ≡ index = ground arith in
            rw straight (m.holds (index + d.begin) (ground arith) ∙ ap (get_elem? xs) here)
        | inr around ↦ elim (Bool-cases (ltb (index + d.begin) capacity)) [
          | inl upper ↦
              let low : index + d.begin < capacity = ground arith in
              let here : place capacity d.begin (index + d.begin) ≡ index = ground arith in
              rw (around, mod-eq_of_lt low) (m.holds (index + d.begin) low ∙ ap (get_elem? xs) here)
          | inr lower ↦
              let wrapped = mod_once (index + d.begin) capacity (ground arith) (omega arith) in
              let here : place capacity d.begin (index + d.begin - capacity) ≡ index =
                ground arith in
              rw (around, wrapped)
                (m.holds (index + d.begin - capacity) (omega arith) ∙ ap (get_elem? xs) here)
        ]
      ]
