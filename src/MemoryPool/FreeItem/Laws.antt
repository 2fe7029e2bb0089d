-- ===== src/MemoryPool/FreeItem/Laws.antt =====
-- MemoryPoolInternalClasses.h: a free item from `MakeItem` on, its check and its link.
use garbage.Prelude.{
  ℕ, ◌+◌, ◌-◌, ◌≤◌, ◌<◌, ◌≡◌, ◌≢◌, refl, sym, ap, ◌∙◌, ◌⊎◌, inl, inr, ◌↔◌, Bool, true, false, ◌&&◌,
  some, arith, update, leb, ltb, ◌==◌, ==_iff, Bool-cases, size_mod,
}
use garbage.MemoryPool.Bytes.{Memory, memset, count, store_bytes}
use garbage.MemoryPool.Bytes.Laws.{
  memset_outside, memset_inside, count_all, count-lt, store_outside, load-store,
}
use garbage.MemoryPool.Strategy.{Alignment, CheckingConsts, assert}
use garbage.MemoryPool.FreeItem.{
  FreeItemMap, new_free_map, end_construct_free, free_item_intact, check_free, get_next_free_item,
  set_next_free_item, make_free_item,
}

-- A run of void bytes is intact.
pub count-exact :
    (n : ℕ) (mem : Memory) (a v : ℕ) → count mem a v n ≡ n → (k : ℕ) → a ≤ k → k < a + n → mem k ≡ v
count-exact n mem a v e k l u = elim (Bool-cases (mem k == v)) [
  | inl same ↦ (==_iff (mem k) v).0 same
  | inr other ↦ absurd (omega (arith, e, count-lt n mem a v k l u (ground arith)))
]

pub both_true : (a b : Bool) → (a && b) ≡ true → (a ≡ true) × (b ≡ true)
both_true true b e = (refl, e)
both_true false b e = cc e

pub assert-true : (b : Bool) → assert b ≡ some tt → b ≡ true
assert-true true e = refl
assert-true false e = cc e

module _ (alignment : Alignment) (consts : CheckingConsts) where
  -- `endConstruct` is done, and the void bytes fill the item up.
  pub record IsBuilt (map : FreeItemMap) : Type 0 where
    pub constructed : map.end_construct ≡ true
    pub size : map.aligned_item_size ≡ 12 + map.end_voids_size

  -- The bytes of a free item.
  pub record HasFreeBytes (map : FreeItemMap) (mem : Memory) (base : ℕ) : Type 0 where
    pub signature : mem base ≡ consts.signature_and_pool_item_free
    pub begin_voids :
        (k : ℕ) → base + 1 ≤ k → k < base + 1 + 3 → mem k ≡ consts.alignment_voids_fill
    pub end_voids :
        (k : ℕ)
        → base + 12 ≤ k
        → k < base + 12 + map.end_voids_size
        → mem k ≡ consts.alignment_voids_fill

  pub end_construct_free-IsBuilt :
      (real : ℕ)
      → 12 ≤ real
      → alignment.is_aligned_size real ≡ true
      → (map : FreeItemMap) × (end_construct_free alignment consts new_free_map real ≡ some map)
        × IsBuilt map
        × (map.aligned_item_size ≡ real)
  unfolding end_construct_free new_free_map
  end_construct_free-IsBuilt real b a =
      let enough : leb 12 real ≡ true = ground arith in
      (
        record { aligned_item_size = real; end_voids_size = real - 12; end_construct = true },
        rw (enough, a) refl,
        record { constructed = refl; size = omega (arith, b) },
        refl,
      )

  free_item_intact-HasFreeBytes :
      (map : FreeItemMap) (mem : Memory) (base : ℕ)
      → free_item_intact alignment consts map mem base ≡ true
      → HasFreeBytes map mem base
  unfolding free_item_intact
  free_item_intact-HasFreeBytes map mem base e =
      let (start, last) = both_true _ _ e in
      let (signed, first) = both_true _ _ start in
      let (apart, signature) = both_true _ _ signed in
      record {
        signature = (==_iff _ _).0 signature;
        begin_voids = count-exact 3 mem (base + 1) _ ((==_iff _ _).0 first);
        end_voids = count-exact map.end_voids_size mem (base + 12) _ ((==_iff _ _).0 last);
      }

  HasFreeBytes-intact :
      (map : FreeItemMap) (mem : Memory) (base : ℕ)
      → consts.signature_and_pool_item_free ≢ consts.signature_and_pool_item_allocated
      → HasFreeBytes map mem base
      → free_item_intact alignment consts map mem base ≡ true
  unfolding free_item_intact
  HasFreeBytes-intact map mem base ne h =
      let apart : (mem base == consts.signature_and_pool_item_allocated) ≡ false =
        ground (arith, h.signature, ne) in
      let signed : (mem base == consts.signature_and_pool_item_free) ≡ true =
        (==_iff _ _).1 h.signature in
      let first = count_all 3 mem (base + 1) consts.alignment_voids_fill h.begin_voids in
      let last =
        count_all map.end_voids_size mem (base + 12) consts.alignment_voids_fill h.end_voids in
      rw (apart, signed, (==_iff _ 3).1 first, (==_iff _ _).1 last) refl

  starts :
      (map : FreeItemMap) (base : ℕ)
      → IsBuilt map
      → alignment.is_aligned_address_for base map.aligned_item_size ≡ true
      → (map.end_construct && alignment.is_aligned_address_for base map.aligned_item_size) ≡ true
  starts map base b a = rw (b.constructed, a) refl

  -- For a map after endConstruct, an aligned item and two different signatures: the check of a free
  -- item passes exactly if its signature and every void byte are right. Any other value in one of
  -- them is found.
  pub check_free-exact :
      (map : FreeItemMap) (mem : Memory) (base : ℕ)
      → IsBuilt map
      → alignment.is_aligned_address_for base map.aligned_item_size ≡ true
      → consts.signature_and_pool_item_free ≢ consts.signature_and_pool_item_allocated
      → (check_free alignment consts map mem base ≡ some tt) ↔ HasFreeBytes map mem base
  unfolding check_free
  check_free-exact map mem base b a ne =
      let start = starts map base b a in
      let same : check_free alignment consts map mem base
          ≡ assert (free_item_intact alignment consts map mem base) =
        rw (start, check_free) refl in
      (
        (λ e. free_item_intact-HasFreeBytes map mem base (assert-true _ (sym same ∙ e))),
        (λ h. same ∙ ap assert (HasFreeBytes-intact map mem base ne h)),
      )

  -- What `MakeItem` and a link leave in memory.
  abbrev made_bytes : FreeItemMap → Memory → ℕ → Memory
  made_bytes map mem base =
      memset
        (store_bytes 8
          (memset (update mem base consts.signature_and_pool_item_free) (base + 1)
            consts.alignment_voids_fill 3)
          (base + 4) 0)
        (base + 12) consts.alignment_voids_fill map.end_voids_size

  made_free_item :
      (map : FreeItemMap) (mem : Memory) (base : ℕ)
      → IsBuilt map
      → alignment.is_aligned_address_for base map.aligned_item_size ≡ true
      → make_free_item alignment consts map mem base ≡ some (made_bytes map mem base)
  unfolding make_free_item set_next_free_item
  made_free_item map mem base b a =
      let start = starts map base b a in
      let room : ltb map.end_voids_size map.aligned_item_size ≡ true = ground (arith, b.size) in
      rw (start, room) refl

  linked_bytes :
      (map : FreeItemMap) (mem : Memory) (base next : ℕ)
      → HasFreeBytes map (store_bytes 8 (made_bytes map mem base) (base + 4) next) base
  linked_bytes map mem base next =
      let fill = consts.alignment_voids_fill in
      let signed = update mem base consts.signature_and_pool_item_free in
      let begun = memset signed (base + 1) fill 3 in
      let null = store_bytes 8 begun (base + 4) 0 in
      let made = memset null (base + 12) fill map.end_voids_size in
      let here : signed base ≡ consts.signature_and_pool_item_free = ground arith in
      record {
        signature =
            store_outside 8 made (base + 4) next base (inl (omega arith))
            ∙ memset_outside map.end_voids_size null (base + 12) fill base (inl (omega arith))
            ∙ store_outside 8 begun (base + 4) 0 base (inl (omega arith))
            ∙ memset_outside 3 signed (base + 1) fill base (inl (omega arith))
            ∙ here;
        begin_voids = λ k l u.
            store_outside 8 made (base + 4) next k (inl (omega arith))
            ∙ memset_outside map.end_voids_size null (base + 12) fill k (inl (omega arith))
            ∙ store_outside 8 begun (base + 4) 0 k (inl (omega arith))
            ∙ memset_inside 3 signed (base + 1) fill k l u;
        end_voids = λ k l u.
            store_outside 8 made (base + 4) next k (inr (omega arith))
            ∙ memset_inside map.end_voids_size null (base + 12) fill k l u;
      }

  linked_outside :
      (map : FreeItemMap) (mem : Memory) (base next k : ℕ)
      → (k < base) ⊎ (base + (12 + map.end_voids_size) ≤ k)
      → store_bytes 8 (made_bytes map mem base) (base + 4) next k ≡ mem k
  linked_outside map mem base next k o =
      let fill = consts.alignment_voids_fill in
      let signed = update mem base consts.signature_and_pool_item_free in
      let begun = memset signed (base + 1) fill 3 in
      let null = store_bytes 8 begun (base + 4) 0 in
      let made = memset null (base + 12) fill map.end_voids_size in
      let here : signed k ≡ mem k = ground arith in
      store_outside 8 made (base + 4) next k (ground arith)
      ∙ memset_outside map.end_voids_size null (base + 12) fill k (ground arith)
      ∙ store_outside 8 begun (base + 4) 0 k (ground arith)
      ∙ memset_outside 3 signed (base + 1) fill k (ground arith)
      ∙ here

  -- For a map after endConstruct, an aligned item and two different signatures, and a pointer
  -- below 2^64: MakeItem and then SetNextFreeItem succeed, GetNextFreeItem gives the pointer
  -- back, the check of the item passes, and no byte outside the item is written.
  pub make_free_item-linked :
      (map : FreeItemMap) (mem : Memory) (base next : ℕ)
      → IsBuilt map
      → alignment.is_aligned_address_for base map.aligned_item_size ≡ true
      → consts.signature_and_pool_item_free ≢ consts.signature_and_pool_item_allocated
      → next < size_mod
      → (made : Memory) × (linked : Memory) × (make_free_item alignment consts map mem base
          ≡ some made)
        × (set_next_free_item alignment consts map made base next ≡ some linked)
        × (get_next_free_item alignment consts map linked base ≡ some next)
        × (check_free alignment consts map linked base ≡ some tt)
        × ((k : ℕ) → (k < base) ⊎ (base + map.aligned_item_size ≤ k) → linked k ≡ mem k)
  unfolding set_next_free_item get_next_free_item
  make_free_item-linked map mem base next b a ne small =
      let start = starts map base b a in
      let made = made_bytes map mem base in
      let linked = store_bytes 8 made (base + 4) next in
      (
        made,
        linked,
        made_free_item map mem base b a,
        rw start refl,
        rw start (ap some (load-store 8 made (base + 4) next small)),
        (check_free-exact map linked base b a ne).1 (linked_bytes map mem base next),
        λ k o. linked_outside map mem base next k (ground (arith, b.size)),
      )
