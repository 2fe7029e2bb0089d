-- ===== src/ContainersUtility/Loop.antt =====
-- containers_utility.hpp: the loop that copies into raw memory, by the three ways it ends.
use garbage.Prelude.{
  update, Outcome, returns, throws, ℕ, suc, ◌+◌, ◌-◌, ◌<◌, ◌≤◌, ◌≡◌, refl, sym, ap, ◌∙◌, Bool, true,
  false, [], ◌∷◌, ◌++◌, List, Option, none, some, if◌then◌else◌, ltb, ◌==◌, map, Bool-cases, inl,
  inr, length, arith, get_elem?, get_elem?_within,
}
use garbage.ContainersUtility.{CopyResult, uninitialized_copy_from}
use garbage.ContainersUtility.Laws.{
  IsLive, within, IsCleared, construct_value-raw, rollback-IsCleared,
}

abbrev pub copied : ℕ → ℕ → Bool → CopyResult
copied begin amount whole = record {
  unitialized_iterator = begin + amount;
  sucessfull_inserted_items_amount = amount;
  transaction_fully_successful = whole;
}

abbrev pub copied_nothing : ℕ → CopyResult
copied_nothing begin = record {
  unitialized_iterator = begin;
  sucessfull_inserted_items_amount = 0;
  transaction_fully_successful = false;
}

module _ {ℓ} {T : Type ℓ} where
  -- `after` is `before` with `values` from `begin` on.
  abbrev pub IsCopied : (ℕ → Option T) → ℕ → List T → (ℕ → Option T) → Type ℓ
  IsCopied before begin values after =
      (p : ℕ)
      → after p
        ≡ (if within begin (length values) p then get_elem? values (p - begin) else before p)

  abbrev pub IsRaw : (ℕ → Option T) → ℕ → ℕ → Type ℓ
  IsRaw cells begin end = (p : ℕ) → begin ≤ p → p < end → cells p ≡ none

  copy_from-cons :
      (capacity : ℕ) (cells : ℕ → Option T) (v : T) (source : List (Option T))
      (saved amount end : ℕ) {o : Option (Outcome (ℕ → Option T) CopyResult)}
      → saved + amount < end
      → end ≤ capacity
      → cells (saved + amount) ≡ none
      → uninitialized_copy_from capacity
          (update cells (saved + amount) (some v))
          source
          saved
          (suc amount)
          end
        ≡ o
      → uninitialized_copy_from capacity cells (some v ∷ source) saved amount end ≡ o
  unfolding uninitialized_copy_from
  copy_from-cons capacity cells v source saved amount end b e raw rest =
      let room : (saved + amount == end) ≡ false = ground arith in
      rw
        (
          room,
          construct_value-raw capacity cells (saved + amount) v (omega arith) raw,
          uninitialized_copy_from,
        )
        rest

  copied_next :
      (cells : ℕ → Option T) (v : T) (values : List T) (saved amount p : ℕ)
      → (if within (saved + suc amount) (length values) p
          then get_elem? values (p - (saved + suc amount))
          else update cells (saved + amount) (some v) p)
        ≡ (if within (saved + amount) (suc (length values)) p
            then get_elem? (v ∷ values) (p - (saved + amount))
            else cells p)
  copied_next cells v values saved amount p = elim (Bool-cases (ltb (saved + amount) p)) [
    | inl later ↦
        let step : p - (saved + amount) ≡ suc (p - (saved + suc amount)) = ground arith in
        let other : (p == saved + amount) ≡ false = ground arith in
        let inside : within (saved + amount) (suc (length values)) p
            ≡ within (saved + suc amount) (length values) p =
          ground arith in
        rw (step, other, inside) refl
    | inr not_later ↦
        let before : within (saved + suc amount) (length values) p ≡ false = ground arith in
        elim (Bool-cases (p == saved + amount)) [
          | inl here ↦
              let inside : within (saved + amount) (suc (length values)) p ≡ true = ground arith in
              let first : p - (saved + amount) ≡ 0 = ground arith in
              rw (before, here, inside, first) refl
          | inr other ↦
              let outside : within (saved + amount) (suc (length values)) p ≡ false =
                ground arith in
              rw (before, other, outside) refl
        ]
  ]

  pub copy_from-Copies :
      (capacity : ℕ) (values : List T) (cells : ℕ → Option T) (saved amount end : ℕ)
      → saved + amount + length values ≤ end
      → end ≤ capacity
      → IsRaw cells (saved + amount) end
      → (cells' : ℕ → Option T) × (uninitialized_copy_from capacity cells
            (map some values)
            saved
            amount
            end
          ≡ some (returns cells' (copied saved (amount + length values) true)))
        × IsCopied cells (saved + amount) values cells'
  unfolding uninitialized_copy_from
  copy_from-Copies capacity [] cells saved amount end b e raw =
      (cells, ap (λ k. some (returns cells (copied saved k true))) (omega arith), λ p. ground arith)
  copy_from-Copies capacity (v ∷ values) cells saved amount end b e raw =
      let (cells', runs, copies) =
        copy_from-Copies capacity values (update cells (saved + amount) (some v)) saved (suc amount)
          end (omega arith) e (λ p lo hi. ground (arith, raw p (omega arith) hi)) in
      (
        cells',
        copy_from-cons capacity cells v (map some values) saved amount end (omega arith) e
            (raw _ (omega arith) (omega arith))
            (runs ∙ ap (λ k. some (returns cells' (copied saved k true))) (omega arith)),
        λ p. copies p ∙ copied_next cells v values saved amount p,
      )

  cleared_made :
      (cells : ℕ → Option T) (v : T) (saved amount p : ℕ)
      → cells (saved + amount) ≡ none
      → (if within saved (suc amount) p then none else update cells (saved + amount) (some v) p)
        ≡ (if within saved amount p then none else cells p)
  cleared_made cells v saved amount p raw = elim (Bool-cases (p == saved + amount)) [
    | inl here ↦
        let inside : within saved (suc amount) p ≡ true = ground arith in
        let same : p ≡ saved + amount = ground arith in
        let outside : within saved amount p ≡ false = ground arith in
        rw (inside, outside) (sym (ap cells same ∙ raw))
    | inr other ↦
        let inside : within saved (suc amount) p ≡ within saved amount p = ground arith in
        rw (inside, other) refl
  ]

  -- A constructor throws: the loop destroys what it had made.
  pub copy_from_throws :
      (capacity : ℕ) (values : List T) (rest : List (Option T)) (cells : ℕ → Option T)
      (saved amount end : ℕ)
      → saved + amount + length values < end
      → end ≤ capacity
      → IsRaw cells (saved + amount) end
      → ((p : ℕ) → saved ≤ p → p < saved + amount → IsLive cells p)
      → (cells' : ℕ → Option T) × (uninitialized_copy_from capacity cells
            (map some values ++ none ∷ rest)
            saved
            amount
            end
          ≡ some (throws cells'))
        × IsCleared cells saved amount cells'
  unfolding uninitialized_copy_from
  copy_from_throws capacity [] rest cells saved amount end b e raw live =
      let room : (saved + amount == end) ≡ false = ground arith in
      let (cells', runs, cleared) =
        rollback-IsCleared capacity amount cells saved (omega arith) live in
      (cells', rw (room, runs, uninitialized_copy_from) refl, cleared)
  copy_from_throws capacity (v ∷ values) rest cells saved amount end b e raw live =
      let made = update cells (saved + amount) (some v) in
      let (cells', runs, cleared) =
        copy_from_throws capacity values rest made saved (suc amount) end (omega arith) e
          (λ p lo hi. ground (arith, raw p (omega arith) hi))
          (λ p lo hi. elim (Bool-cases (p == saved + amount)) [
            | inl here ↦ (v, rw here refl)
            | inr other ↦ let (w, at) = live p lo (ground arith) in (w, rw other at)
          ]) in
      (
        cells',
        copy_from-cons capacity cells v (map some values ++ none ∷ rest) saved amount end
            (omega arith) e (raw _ (omega arith) (omega arith)) runs,
        λ p. cleared p ∙ cleared_made cells v saved amount p (raw _ (omega arith) (omega arith)),
      )

  -- The destination is too short: the loop ends at its end, whatever else the source has.
  pub copy_from_fills :
      (capacity : ℕ) (values : List T) (made : Option T) (rest : List (Option T))
      (cells : ℕ → Option T) (saved amount end : ℕ)
      → saved + amount + length values ≡ end
      → end ≤ capacity
      → IsRaw cells (saved + amount) end
      → (cells' : ℕ → Option T) × (uninitialized_copy_from capacity cells
            (map some values ++ made ∷ rest)
            saved
            amount
            end
          ≡ some (returns cells' (copied saved (amount + length values) false)))
        × IsCopied cells (saved + amount) values cells'
  unfolding uninitialized_copy_from
  copy_from_fills capacity [] made rest cells saved amount end b e raw =
      let full : (saved + amount == end) ≡ true = ground arith in
      (
        cells,
        rw (full, uninitialized_copy_from)
            (ap (λ k. some (returns cells (copied saved k false))) (omega arith)),
        λ p. ground arith,
      )
  copy_from_fills capacity (v ∷ values) made rest cells saved amount end b e raw =
      let (cells', runs, copies) =
        copy_from_fills capacity values made rest (update cells (saved + amount) (some v)) saved
          (suc amount) end (omega arith) e (λ p lo hi. ground (arith, raw p (omega arith) hi)) in
      (
        cells',
        copy_from-cons capacity cells v (map some values ++ made ∷ rest) saved amount end
            (omega arith) e (raw _ (omega arith) (omega arith))
            (runs ∙ ap (λ k. some (returns cells' (copied saved k false))) (omega arith)),
        λ p. copies p ∙ copied_next cells v values saved amount p,
      )

  pub IsCopied-IsLive :
      (cells : ℕ → Option T) (begin : ℕ) (values : List T) (cells' : ℕ → Option T) (p : ℕ)
      → IsCopied cells begin values cells'
      → begin ≤ p
      → p < begin + length values
      → IsLive cells' p
  IsCopied-IsLive cells begin values cells' p copies lo hi =
      let inside : within begin (length values) p ≡ true = ground arith in
      let (v, at) = get_elem?_within values (p - begin) (omega arith) in
      (v, copies p ∙ rw inside at)

  pub undone_same :
      (cells : ℕ → Option T) (begin end : ℕ) (values : List T) (cells' : ℕ → Option T) (p : ℕ)
      → begin + length values ≡ end
      → IsCopied cells begin values cells'
      → IsRaw cells begin end
      → (if within begin (end - begin) p then none else cells' p) ≡ cells p
  undone_same cells begin end values cells' p e copies raw =
      elim (Bool-cases (within begin (length values) p)) [
        | inl inside ↦
            let whole : within begin (end - begin) p ≡ true = ground arith in
            rw whole (sym (raw p (ground arith) (ground arith)))
        | inr outside ↦
            let whole : within begin (end - begin) p ≡ false = ground arith in
            rw whole (copies p ∙ rw outside refl)
      ]
