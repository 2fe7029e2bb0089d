-- ===== src/ContainersUtility/Laws.antt =====
-- containers_utility.hpp: what one construction, `destroy` and `rollback` do to memory.
use garbage.Prelude.{
  ◌>>=◌, update, ℕ, zero, suc, ◌+◌, ◌<◌, ◌≤◌, ◌≡◌, refl, ap, ◌∙◌, Bool, true, false, Option, none,
  some, if◌then◌else◌, ltb, leb, ◌==◌, ◌&&◌, ◌||◌, arith,
}
use garbage.ContainersUtility.{construct_value, destroy_value, destroy, rollback}

-- In [begin, begin + n)
abbrev pub within : ℕ → ℕ → ℕ → Bool
within begin n p = leb begin p && ltb p (begin + n)

module _ {ℓ} {T : Type ℓ} where
  abbrev pub IsLive : (ℕ → Option T) → ℕ → Type ℓ
  IsLive cells p = (v : T) × (cells p ≡ some v)

  -- `after` is `before` with the `n` cells from `begin` on raw.
  abbrev pub IsCleared : (ℕ → Option T) → ℕ → ℕ → (ℕ → Option T) → Type ℓ
  IsCleared before begin n after = (p : ℕ) → after p ≡ (if within begin n p then none else before p)

  pub construct_value-raw :
      (capacity : ℕ) (cells : ℕ → Option T) (p : ℕ) (v : T)
      → p < capacity
      → cells p ≡ none
      → construct_value capacity cells p v ≡ some (update cells p (some v))
  unfolding construct_value
  construct_value-raw capacity cells p v b raw =
      let inside : ltb p capacity ≡ true = ground arith in rw (inside, raw, construct_value) refl

  pub destroy_value-live :
      (capacity : ℕ) (cells : ℕ → Option T) (p : ℕ)
      → p < capacity
      → IsLive cells p
      → destroy_value capacity cells p ≡ some (update cells p none)
  unfolding destroy_value
  destroy_value-live capacity cells p b live =
      let inside : ltb p capacity ≡ true = ground arith in rw (inside, live.1, destroy_value) refl

  -- `destroy` of live values makes their cells raw and touches no other.
  pub destroy-IsCleared :
      (capacity : ℕ) (n : ℕ) (cells : ℕ → Option T) (begin : ℕ)
      → begin + n ≤ capacity
      → ((p : ℕ) → begin ≤ p → p < begin + n → IsLive cells p)
      → (cells' : ℕ → Option T) × (destroy capacity cells begin n ≡ some cells')
        × IsCleared cells begin n cells'
  unfolding destroy
  destroy-IsCleared capacity zero cells begin b live = (cells, refl, λ p. ground arith)
  destroy-IsCleared capacity (suc n) cells begin b live =
      let here =
        destroy_value-live capacity cells begin (omega arith)
          (live begin (omega arith) (omega arith)) in
      let (cells', runs, cleared) =
        destroy-IsCleared capacity n (update cells begin none) (suc begin) (omega arith) (λ p lo hi.
          let (v, at) = live p (omega arith) (omega arith) in (v, ground (arith, at))) in
      (
        cells',
        ap (λ o. o >>= λ c. destroy capacity c (suc begin) n) here ∙ runs,
        λ p. cleared p ∙ ground arith,
      )

  none_twice :
      (b c : Bool) (o : Option T)
      → (if b then none else (if c then none else o)) ≡ (if c || b then none else o)
  none_twice true true o = refl
  none_twice true false o = refl
  none_twice false true o = refl
  none_twice false false o = refl

  cleared_last :
      (cells : ℕ → Option T) (begin n p : ℕ)
      → (if within begin n p then none else update cells (begin + n) none p)
        ≡ (if within begin (suc n) p then none else cells p)
  cleared_last cells begin n p =
      let inside : within begin (suc n) p ≡ ((p == begin + n) || within begin n p) = ground arith in
      rw inside (none_twice (within begin n p) (p == begin + n) (cells p))

  -- So does `rollback`, from the last one to the first.
  pub rollback-IsCleared :
      (capacity : ℕ) (n : ℕ) (cells : ℕ → Option T) (begin : ℕ)
      → begin + n ≤ capacity
      → ((p : ℕ) → begin ≤ p → p < begin + n → IsLive cells p)
      → (cells' : ℕ → Option T) × (rollback capacity cells begin n ≡ some cells')
        × IsCleared cells begin n cells'
  unfolding rollback
  rollback-IsCleared capacity zero cells begin b live = (cells, refl, λ p. ground arith)
  rollback-IsCleared capacity (suc n) cells begin b live =
      let here =
        destroy_value-live capacity cells (begin + n) (omega arith)
          (live (begin + n) (omega arith) (omega arith)) in
      let (cells', runs, cleared) =
        rollback-IsCleared capacity n (update cells (begin + n) none) begin (omega arith)
          (λ p lo hi.
            let (v, at) = live p lo (omega arith) in
            let other : (p == begin + n) ≡ false = ground arith in (v, rw other at)) in
      (
        cells',
        ap (λ o. o >>= λ c. rollback capacity c begin n) here ∙ runs,
        λ p. cleared p ∙ cleared_last cells begin n p,
      )
