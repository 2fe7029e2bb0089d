-- ===== src/ContainersUtility/Copies.antt =====
-- containers_utility.hpp: a copy into raw memory is made whole, or is undone.
use garbage.Prelude.{
  ◌>>=◌, returns, throws, ℕ, ◌+◌, ◌-◌, ◌<◌, ◌≤◌, ◌≡◌, refl, ap, ◌∙◌, true, false, ◌∷◌, ◌++◌, List,
  Option, none, some, map, length, arith, subst,
}
use garbage.ContainersUtility.{
  settle_overflow, uninitialized_copy_and_rollback_if_exception,
  uninitialized_copy_and_rollback_if_exception_or_overflow,
}
use garbage.ContainersUtility.Laws.{within, rollback-IsCleared}
use garbage.ContainersUtility.Loop.{
  copied, copied_nothing, IsCopied, IsRaw, IsCopied-IsLive, copy_from-Copies, copy_from_throws,
  copy_from_fills, undone_same,
}

module _ {ℓ} {T : Type ℓ} where
  -- Where all copies succeed and fit into a raw destination,
  -- uninitialized_copy_and_rollback_if_exception places them there in order, leaves the memory
  -- around it alone and reports their number.
  pub uninitialized_copy_lem :
      (capacity : ℕ) (cells : ℕ → Option T) (values : List T) (begin end : ℕ)
      → begin + length values ≤ end
      → end ≤ capacity
      → IsRaw cells begin end
      → (cells' : ℕ → Option T) × (uninitialized_copy_and_rollback_if_exception capacity cells
            (map some values)
            begin
            end
          ≡ some (returns cells' (copied begin (length values) true)))
        × IsCopied cells begin values cells'
  unfolding uninitialized_copy_and_rollback_if_exception
  uninitialized_copy_lem capacity cells values begin end b e raw =
      let (cells', runs, copies) =
        copy_from-Copies capacity values cells begin 0 end (omega arith) e
          (λ p lo hi. raw p (omega arith) hi) in
      let start : begin + 0 ≡ begin = omega arith in
      let counted : 0 + length values ≡ length values = omega arith in
      (
        cells',
        runs ∙ ap (λ k. some (returns cells' (copied begin k true))) counted,
        subst (λ k. IsCopied cells k values cells') start copies,
      )

  -- Where a copy constructor throws after any number of copies into a raw destination that has
  -- room, uninitialized_copy_and_rollback_if_exception ends with the exception and all memory is
  -- as it was before.
  pub uninitialized_copy_throws :
      (capacity : ℕ) (cells : ℕ → Option T) (values : List T) (rest : List (Option T))
      (begin end : ℕ)
      → begin + length values < end
      → end ≤ capacity
      → IsRaw cells begin end
      → (cells' : ℕ → Option T) × (uninitialized_copy_and_rollback_if_exception capacity cells
            (map some values ++ none ∷ rest)
            begin
            end
          ≡ some (throws cells'))
        × ((p : ℕ) → cells' p ≡ cells p)
  unfolding uninitialized_copy_and_rollback_if_exception
  uninitialized_copy_throws capacity cells values rest begin end b e raw =
      let (cells', runs, cleared) =
        copy_from_throws capacity values rest cells begin 0 end (omega arith) e
          (λ p lo hi. raw p (omega arith) hi) (λ p lo hi. absurd (omega arith)) in
      (
        cells',
        runs,
        λ p. let outside : within begin 0 p ≡ false = ground arith in cleared p ∙ rw outside refl,
      )

  -- Where the source is longer than the raw destination and the copies that fit succeed, the
  -- _or_overflow variant destroys them, so that all memory is as it was, and reports that.
  pub uninitialized_copy_overflow :
      (capacity : ℕ) (cells : ℕ → Option T) (values : List T) (made : Option T)
      (rest : List (Option T)) (begin end : ℕ)
      → begin + length values ≡ end
      → end ≤ capacity
      → IsRaw cells begin end
      → (cells' : ℕ → Option T) × (uninitialized_copy_and_rollback_if_exception_or_overflow capacity
            cells
            (map some values ++ made ∷ rest)
            begin
            end
          ≡ some (returns cells' (copied_nothing begin)))
        × ((p : ℕ) → cells' p ≡ cells p)
  unfolding uninitialized_copy_and_rollback_if_exception_or_overflow
      uninitialized_copy_and_rollback_if_exception
  uninitialized_copy_overflow capacity cells values made rest begin end b e raw =
      let (cells', runs, copies) =
        copy_from_fills capacity values made rest cells begin 0 end (omega arith) e
          (λ p lo hi. raw p (omega arith) hi) in
      let start : begin + 0 ≡ begin = omega arith in
      let copies : IsCopied cells begin values cells' =
        subst (λ k. IsCopied cells k values cells') start copies in
      let (cells'', undone, cleared) =
        rollback-IsCleared capacity (end - begin) cells' begin (omega arith)
          (λ p lo hi. IsCopied-IsLive cells begin values cells' p copies lo (omega arith)) in
      (
        cells'',
        ap (λ o. o >>= settle_overflow capacity begin end) runs
            ∙ ap (λ o. o >>= λ c. some (returns c (copied_nothing begin))) undone,
        λ p. cleared p ∙ undone_same cells begin end values cells' p b copies raw,
      )
