-- ===== src/PageAllocator/Areas.antt =====
-- mp/g/LowestLevelAllocator.h: how `TAreaHeader` hands out its memory, and how it tries to get more.
use garbage.Prelude.{
  ◌>>=◌, ℕ, zero, suc, ◌+◌, ◌*◌, ◌/◌, ◌≤◌, ◌<◌, ◌≡◌, ◌≢◌, refl, ap, Bool, true, false, Option, none,
  some, arith, ◌==◌, leb, ltb, Bool-cases, inl, inr,
}
use garbage.PageAllocator.{
  AreaHeader, free_memory_at_area, allocate_without_extend, reserve_pages, extend_area,
  try_extend_area, allocate_or_null,
}

-- Whether memory was reserved at all is `false` in every result.
abbrev IsFailure {ℓ} : {A : Type ℓ} → Option (Bool × A) → Type 0
IsFailure none = Unit
IsFailure (some (result, a)) = result ≡ false

abbrev IsNull {ℓ} : {A : Type ℓ} → Option (Option ℕ × A) → Type 0
IsNull none = Unit
IsNull (some (pointer, a)) = pointer ≡ none

module _ (page_size : ℕ) (reserve : ℕ → ℕ → Bool) where
  reserve_pages-IsFailure :
      (fuel e amount : ℕ) → IsFailure (reserve_pages page_size reserve fuel e amount)
  unfolding reserve_pages
  reserve_pages-IsFailure zero e amount = tt
  reserve_pages-IsFailure (suc fuel) e amount = elim (Bool-cases (reserve e (amount * page_size))) [
    | inl reserved ↦ rw reserved (reserve_pages-IsFailure fuel e (amount / 2))
    | inr not_reserved ↦ elim (Bool-cases (leb amount 1)) [
      | inl last ↦ rw (not_reserved, last) (reserve_pages-IsFailure fuel e (amount / 2))
      | inr more ↦ rw (not_reserved, more) refl
    ]
  ]

  extend_area-IsFailure :
      (area : AreaHeader) (o : Option (Bool × ℕ))
      → IsFailure o
      → IsFailure (o >>= λ r. some (extend_area page_size reserve area r.0 r.1))
  unfolding extend_area
  extend_area-IsFailure area none h = tt
  extend_area-IsFailure area (some (true, amount)) h = cc h
  extend_area-IsFailure area (some (false, amount)) h = refl

  -- tryExtendArea has no result but failure, whatever the operating system reserves.
  try_extend_area-IsFailure :
      (fuel : ℕ) (area : AreaHeader) → IsFailure (try_extend_area page_size reserve fuel area)
  unfolding try_extend_area
  try_extend_area-IsFailure fuel area = elim (Bool-cases (area.max_pages_for_extend == 0)) [
    | inl no_pages ↦ rw (no_pages, try_extend_area) refl
    | inr pages ↦
        rw (pages, try_extend_area)
          (extend_area-IsFailure area
            (reserve_pages page_size reserve fuel area.end area.max_pages_for_extend)
            (reserve_pages-IsFailure fuel area.end area.max_pages_for_extend))
  ]

  allocate_after_failure :
      (fuel size : ℕ) (o : Option (Bool × AreaHeader))
      → IsFailure o
      → IsNull (
          o >>= λ r. elim r.0 [
            | true ↦ allocate_or_null page_size reserve fuel r.1 size
            | false ↦ some (none, r.1)
          ])
  allocate_after_failure fuel size none h = tt
  allocate_after_failure fuel size (some (true, area)) h = cc h
  allocate_after_failure fuel size (some (false, area)) h = refl

  allocate_or_null-IsNull :
      (fuel : ℕ) (area : AreaHeader) (size : ℕ)
      → free_memory_at_area area < size
      → IsNull (allocate_or_null page_size reserve fuel area size)
  unfolding allocate_or_null
  allocate_or_null-IsNull zero area size b = tt
  allocate_or_null-IsNull (suc fuel) area size b =
      let short : ltb (free_memory_at_area area) size ≡ true = ground arith in
      rw (short, allocate_or_null)
        (allocate_after_failure fuel size (try_extend_area page_size reserve fuel area)
          (try_extend_area-IsFailure fuel area))

  -- A size that fits is handed out from the beginning of the area, which moves behind it.
  allocate_or_null_fits :
      (fuel : ℕ) (area : AreaHeader) (size : ℕ)
      → size ≤ free_memory_at_area area
      → allocate_or_null page_size reserve (suc fuel) area size
        ≡ some (some area.begin, record area { begin = area.begin + size })
  unfolding allocate_or_null allocate_without_extend
  allocate_or_null_fits fuel area size b =
      let enough : ltb (free_memory_at_area area) size ≡ false = ground arith in
      rw (enough, allocate_or_null) (ap some (rw (enough, allocate_without_extend) refl))

  null_result :
      (o : Option (Option ℕ × AreaHeader)) (pointer : ℕ) (area : AreaHeader)
      → IsNull o
      → o ≢ some (some pointer, area)
  null_result none pointer area h e = cc e
  null_result (some (none, area')) pointer area h e = cc e
  null_result (some (some p, area')) pointer area h e = cc h

  -- For any page size, whatever the reservation of pages answers and however many rounds are run:
  -- an allocation of more than the free memory of the area never gives a pointer.
  pub allocate_or_null-not_extended :
      (fuel : ℕ) (area : AreaHeader) (size pointer : ℕ) (area' : AreaHeader)
      → free_memory_at_area area < size
      → allocate_or_null page_size reserve fuel area size ≢ some (some pointer, area')
  allocate_or_null-not_extended fuel area size pointer area' b =
      null_result _ pointer area' (allocate_or_null-IsNull fuel area size b)
