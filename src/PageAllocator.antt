-- ===== src/PageAllocator.antt =====
-- mp/g/LowestLevelAllocator.h: the access of pages, alignment, and `TAreaHeader`, which hands out
-- memory from an area of pages. The page size and the calls of the operating system are parameters.
-- `CPL0_ASSERT` reports and goes on to the test that follows it.
pub mod Laws
pub mod Areas
pub mod Tests
use garbage.Prelude.{
  ◌>>=◌, ℕ, zero, suc, ◌+◌, ◌-◌, ◌*◌, ◌/◌, ◌%◌, Bool, true, false, not, ◌||◌, ◌&&◌, [], ◌∷◌, ◌++◌,
  List, Option, none, some, if◌then◌else◌, ◌==◌, leb, ltb, add_size,
}

-- `Align` and `IsAligned`
unfoldable pub align : ℕ → ℕ → ℕ
align value step =
    if leb step 1
    then value
    else (if value % step == 0 then value else add_size value (step - value % step))

unfoldable pub is_aligned : ℕ → ℕ → Bool
is_aligned value step = if leb step 1 then true else value % step == 0

-- A call of `RTSetPageAccess`: an address and the access. NULL is 0.
abbrev pub Calls : Type 0
Calls = List (ℕ × ℕ)

module _ (page_size : ℕ) where
  -- The loop over the pages. `none`: the fuel runs out.
  unfoldable pub access_pages : ℕ → ℕ → ℕ → ℕ → Option Calls
  access_pages zero current e access = none
  access_pages (suc fuel) current e access =
      let rest = access_pages fuel (current + page_size) e access in
      if ltb current e
      then elim rest [ none ↦ none | some calls ↦ some ((current, access) ∷ calls) ]
      else some []

  -- `SetPagesAccess(Begin, End, Access)`
  unfoldable pub set_pages_access : ℕ → ℕ → ℕ → ℕ → Option Calls
  unfolding access_pages
  set_pages_access fuel begin e access =
      if begin == 0
      then some []
      else (if leb begin e then some [] else elim (access_pages fuel begin e access) [
        | none ↦ none
        | some calls ↦ some (calls ++ (if e % page_size == 0 then [] else (e, access) ∷ []))
      ])

  -- `SetPagesAccess(Address, Size, Access)`
  unfoldable pub set_pages_access_of_size : ℕ → ℕ → ℕ → ℕ → Option Calls
  unfolding set_pages_access
  set_pages_access_of_size fuel address size access =
      if address == 0 || size == 0
      then some []
      else set_pages_access fuel address (address + size) access

  -- `SetPagesAccessInPages`, which hands the product on as the end of the region.
  unfoldable pub set_pages_access_in_pages : ℕ → ℕ → ℕ → ℕ → Option Calls
  unfolding set_pages_access
  set_pages_access_in_pages fuel address amount_of_page access =
      if address == 0 || amount_of_page == 0
      then some []
      else set_pages_access fuel address (amount_of_page * page_size) access

  -- The three functions after a reservation. `no_access` is `RT_PG_NOACCESS`.
  unfoldable pub set_pages_access_after_reservation : ℕ → ℕ → ℕ → ℕ → ℕ → Option Calls
  unfolding set_pages_access
  set_pages_access_after_reservation no_access fuel begin e access =
      if begin == 0 || leb begin e
      then some []
      else (if access == no_access then some [] else set_pages_access fuel begin e access)

  unfoldable pub set_pages_access_of_size_after_reservation : ℕ → ℕ → ℕ → ℕ → ℕ → Option Calls
  unfolding set_pages_access_of_size
  set_pages_access_of_size_after_reservation no_access fuel address size access =
      if address == 0 || size == 0
      then some []
      else (if access == no_access
          then some []
          else set_pages_access_of_size fuel address size access)

  unfoldable pub set_pages_access_in_pages_after_reservation : ℕ → ℕ → ℕ → ℕ → ℕ → Option Calls
  unfolding set_pages_access_in_pages
  set_pages_access_in_pages_after_reservation no_access fuel address amount_of_page access =
      if address == 0 || amount_of_page == 0
      then some []
      else (if access == no_access
          then some []
          else set_pages_access_in_pages fuel address amount_of_page access)

-- `TAreaHeader`. Its beginning is not after its end, which `CheckInvariant` asserts.
pub record AreaHeader : Type 0 where
  pub begin : ℕ
  pub end : ℕ
  pub max_pages_for_extend : ℕ

abbrev pub free_memory_at_area : AreaHeader → ℕ
free_memory_at_area area = area.end - area.begin

-- `none` is NULL.
unfoldable pub allocate_without_extend : AreaHeader → ℕ → Option ℕ × AreaHeader
allocate_without_extend area size =
    if ltb (free_memory_at_area area) size
    then (none, area)
    else (some area.begin, record area { begin = area.begin + size })

module _ (page_size : ℕ) (reserve : ℕ → ℕ → Bool) where
  -- The loop of `tryExtendArea`: its end is the last result of `RTReserveVirtualAddress`, which is
  -- `reserve`, and the amount of pages. `none`: the fuel runs out.
  unfoldable pub reserve_pages : ℕ → ℕ → ℕ → Option (Bool × ℕ)
  reserve_pages zero e amount = none
  reserve_pages (suc fuel) e amount =
      let rest = reserve_pages fuel e (amount / 2) in
      if reserve e (amount * page_size) || leb amount 1
      then rest
      else some (reserve e (amount * page_size), amount)

  -- What `tryExtendArea` does after its loop. The result is `TResultOfExtendArea`. The access of the
  -- new pages is the operating system's.
  unfoldable pub extend_area : AreaHeader → Bool → ℕ → Bool × AreaHeader
  extend_area area true amount =
      (true, record area { end = area.end + amount * page_size; max_pages_for_extend = amount })
  extend_area area false amount = (false, record area { max_pages_for_extend = 0 })

  unfoldable pub try_extend_area : ℕ → AreaHeader → Option (Bool × AreaHeader)
  unfolding reserve_pages extend_area
  try_extend_area fuel area = elim (area.max_pages_for_extend == 0) [
    | true ↦ some (false, area)
    | false ↦ do
      (reserved, amount) ← reserve_pages fuel area.end area.max_pages_for_extend
      some (extend_area area reserved amount)
  ]

  -- `allocateOrNULLWithCantContinueExtendThisArea`
  unfoldable pub allocate_or_null : ℕ → AreaHeader → ℕ → Option (Option ℕ × AreaHeader)
  unfolding try_extend_area allocate_without_extend
  allocate_or_null zero area size = none
  allocate_or_null (suc fuel) area size = elim (ltb (free_memory_at_area area) size) [
    | false ↦ some (allocate_without_extend area size)
    | true ↦ do
      (extended, area') ← try_extend_area fuel area
      elim extended [ true ↦ allocate_or_null fuel area' size | false ↦ some (none, area') ]
  ]
