-- ===== src/MemoryPool/AllocatedItem/Laws.antt =====
-- MemoryPoolInternalClasses.h: an allocated item from `MakeItem` on, and its check.
use garbage.Prelude.{
  ℕ, ◌+◌, ◌-◌, ◌≤◌, ◌<◌, ◌≡◌, ◌≢◌, refl, sym, ap, ◌∙◌, ◌⊎◌, inl, ◌↔◌, true, false, ◌&&◌, some,
  arith, update, leb, ltb, ◌==◌, ==_iff,
}
use garbage.MemoryPool.Bytes.{Memory, memset}
use garbage.MemoryPool.Bytes.Laws.{memset_outside, memset_inside, count_all, count_same}
use garbage.MemoryPool.Strategy.{Alignment, CheckingConsts, assert}
use garbage.MemoryPool.FreeItem.Laws.{count-exact, both_true, assert-true}
use garbage.MemoryPool.AllocatedItem.{
  AllocatedItemMap, not_negative, allocated_item_intact, check_allocated, make_allocated_item,
  get_item_base, get_allocated_pointer,
}
use garbage.MemoryPool.AllocatedItem.Layout.{IsLaidOut}

module _ (alignment : Alignment) (consts : CheckingConsts) where
  -- The bytes of an allocated item that its check is about.
  pub record HasAllocatedBytes (map : AllocatedItemMap) (mem : Memory) (base : ℕ) : Type 0 where
    pub signature : mem base ≡ consts.signature_and_pool_item_allocated
    pub begin_voids :
        (k : ℕ)
        → base + 1 ≤ k
        → k < base + 1 + map.begin_voids_size
        → mem k ≡ consts.alignment_voids_fill
    pub end_voids :
        (k : ℕ)
        → base + map.end_voids_diff ≤ k
        → k < base + map.end_voids_diff + map.end_voids_size
        → mem k ≡ consts.alignment_voids_fill

  intact-HasAllocatedBytes :
      (map : AllocatedItemMap) (mem : Memory) (base : ℕ)
      → allocated_item_intact alignment consts map mem base ≡ true
      → HasAllocatedBytes map mem base
  unfolding allocated_item_intact
  intact-HasAllocatedBytes map mem base e =
      let (start, last) = both_true _ _ e in
      let (signed, first) = both_true _ _ start in
      let (apart, signature) = both_true _ _ signed in
      record {
        signature = (==_iff _ _).0 signature;
        begin_voids = count-exact map.begin_voids_size mem (base + 1) _ ((==_iff _ _).0 first);
        end_voids =
            count-exact map.end_voids_size mem (base + map.end_voids_diff) _ ((==_iff _ _).0 last);
      }

  HasAllocatedBytes-intact :
      (map : AllocatedItemMap) (mem : Memory) (base : ℕ)
      → consts.signature_and_pool_item_free ≢ consts.signature_and_pool_item_allocated
      → HasAllocatedBytes map mem base
      → allocated_item_intact alignment consts map mem base ≡ true
  unfolding allocated_item_intact
  HasAllocatedBytes-intact map mem base ne h =
      let apart : (mem base == consts.signature_and_pool_item_free) ≡ false =
        ground (arith, h.signature, ne) in
      let signed : (mem base == consts.signature_and_pool_item_allocated) ≡ true =
        (==_iff _ _).1 h.signature in
      let first =
        count_all map.begin_voids_size mem (base + 1) consts.alignment_voids_fill h.begin_voids in
      let last =
        count_all map.end_voids_size mem (base + map.end_voids_diff) consts.alignment_voids_fill
          h.end_voids in
      rw (apart, signed, (==_iff _ _).1 first, (==_iff _ _).1 last) refl

  starts :
      (map : AllocatedItemMap) (base n : ℕ)
      → IsLaidOut map n
      → alignment.is_aligned_address_for base map.aligned_item_size ≡ true
      → (map.end_construct && alignment.is_aligned_address_for base map.aligned_item_size) ≡ true
  starts map base n b a = rw (b.constructed, a) refl

  check_same :
      (map : AllocatedItemMap) (mem : Memory) (base n : ℕ)
      → IsLaidOut map n
      → alignment.is_aligned_address_for base map.aligned_item_size ≡ true
      → check_allocated alignment consts map mem base
        ≡ assert (allocated_item_intact alignment consts map mem base)
  unfolding check_allocated
  check_same map mem base n b a = rw (starts map base n b a, check_allocated) refl

  -- For a map after endConstruct, an aligned item and two different signatures: the check of an
  -- allocated item passes exactly if its signature and every void byte that the map knows of are
  -- right.
  pub check_allocated-exact :
      (map : AllocatedItemMap) (mem : Memory) (base n : ℕ)
      → IsLaidOut map n
      → alignment.is_aligned_address_for base map.aligned_item_size ≡ true
      → consts.signature_and_pool_item_free ≢ consts.signature_and_pool_item_allocated
      → (check_allocated alignment consts map mem base ≡ some tt) ↔ HasAllocatedBytes map mem base
  check_allocated-exact map mem base n b a ne =
      let same = check_same map mem base n b a in
      (
        (λ e. intact-HasAllocatedBytes map mem base (assert-true _ (sym same ∙ e))),
        (λ h. same ∙ ap assert (HasAllocatedBytes-intact map mem base ne h)),
      )

  abbrev made_bytes : AllocatedItemMap → Memory → ℕ → Memory
  made_bytes map mem base =
      memset
        (memset
          (memset (update mem base consts.signature_and_pool_item_allocated) (base + 1)
            consts.alignment_voids_fill map.begin_voids_size)
          (base + map.item_value_diff) consts.item_value map.item_value_size)
        (base + map.end_voids_diff) consts.alignment_voids_fill map.end_voids_size

  made_item :
      (map : AllocatedItemMap) (mem : Memory) (base n : ℕ)
      → IsLaidOut map n
      → alignment.is_aligned_address_for base map.aligned_item_size ≡ true
      → make_allocated_item alignment consts map mem base ≡ some (made_bytes map mem base)
  unfolding make_allocated_item
  made_item map mem base n b a =
      let start = starts map base n b a in
      let end_voids : ltb map.end_voids_size map.aligned_item_size ≡ true =
        ground (arith, b.value, b.not_empty, b.after_signature, b.after_value, b.inside) in
      let begin_voids : ltb map.begin_voids_size map.aligned_item_size ≡ true =
        ground (arith, b.not_empty, b.after_signature, b.after_value, b.inside) in
      let after_value : (not_negative map.end_voids_diff
            && leb map.end_voids_diff map.aligned_item_size)
          ≡ true =
        ground (arith, b.inside, b.small) in
      let value : ltb map.item_value_size map.aligned_item_size ≡ true =
        ground (arith, b.value, b.after_signature, b.after_value, b.inside) in
      let before_value : (not_negative map.item_value_diff
            && ltb map.item_value_diff map.aligned_item_size)
          ≡ true =
        ground (arith, b.not_empty, b.after_value, b.inside, b.small) in
      rw (start, end_voids, begin_voids, after_value, value, before_value) refl

  made_HasAllocatedBytes :
      (map : AllocatedItemMap) (mem : Memory) (base n : ℕ)
      → IsLaidOut map n
      → HasAllocatedBytes map (made_bytes map mem base) base
  made_HasAllocatedBytes map mem base n b =
      let fill = consts.alignment_voids_fill in
      let signed = update mem base consts.signature_and_pool_item_allocated in
      let begun = memset signed (base + 1) fill map.begin_voids_size in
      let valued =
        memset begun (base + map.item_value_diff) consts.item_value map.item_value_size in
      let here : signed base ≡ consts.signature_and_pool_item_allocated = ground arith in
      let ends = b.after_signature in
      let after = b.after_value in
      record {
        signature =
            memset_outside map.end_voids_size valued (base + map.end_voids_diff) fill base
              (inl (omega arith))
            ∙ memset_outside map.item_value_size begun (base + map.item_value_diff)
                consts.item_value base (inl (omega arith))
            ∙ memset_outside map.begin_voids_size signed (base + 1) fill base (inl (omega arith))
            ∙ here;
        begin_voids = λ k l u.
            memset_outside map.end_voids_size valued (base + map.end_voids_diff) fill k
              (inl (omega arith))
            ∙ memset_outside map.item_value_size begun (base + map.item_value_diff)
                consts.item_value k (inl (omega arith))
            ∙ memset_inside map.begin_voids_size signed (base + 1) fill k l u;
        end_voids =
            λ k l u. memset_inside map.end_voids_size valued (base + map.end_voids_diff) fill k l u;
      }

  -- For a map after endConstruct, an aligned item and two different signatures: MakeItem
  -- succeeds, every byte of the value is the item value, the check of an allocated item passes,
  -- and no byte outside the item is written.
  pub make_allocated_item-check :
      (map : AllocatedItemMap) (mem : Memory) (base n : ℕ)
      → IsLaidOut map n
      → alignment.is_aligned_address_for base map.aligned_item_size ≡ true
      → consts.signature_and_pool_item_free ≢ consts.signature_and_pool_item_allocated
      → (made : Memory) × (make_allocated_item alignment consts map mem base ≡ some made)
        × (check_allocated alignment consts map made base ≡ some tt)
        × ((k : ℕ)
            → base + map.item_value_diff ≤ k
            → k < base + map.item_value_diff + n
            → made k ≡ consts.item_value)
        × ((k : ℕ) → (k < base) ⊎ (base + map.aligned_item_size ≤ k) → made k ≡ mem k)
  make_allocated_item-check map mem base n b a ne =
      let fill = consts.alignment_voids_fill in
      let signed = update mem base consts.signature_and_pool_item_allocated in
      let begun = memset signed (base + 1) fill map.begin_voids_size in
      let valued =
        memset begun (base + map.item_value_diff) consts.item_value map.item_value_size in
      let made = made_bytes map mem base in
      (
        made,
        made_item map mem base n b a,
        (check_allocated-exact map made base n b a ne).1 (made_HasAllocatedBytes map mem base n b),
        λ k l u.
            memset_outside map.end_voids_size valued (base + map.end_voids_diff) fill k
              (inl (omega (arith, b.after_value)))
            ∙ memset_inside map.item_value_size begun (base + map.item_value_diff) consts.item_value
                k l (omega (arith, b.value)),
        λ k o.
            memset_outside map.end_voids_size valued (base + map.end_voids_diff) fill k
              (ground (arith, b.after_value, b.inside))
            ∙ memset_outside map.item_value_size begun (base + map.item_value_diff)
                consts.item_value k (ground (arith, b.value, b.after_value, b.inside))
            ∙ memset_outside map.begin_voids_size signed (base + 1) fill k
                (ground (arith, b.after_signature, b.after_value, b.inside))
            ∙ ground (arith, b.not_empty, b.after_value, b.inside),
      )

  -- For a map after endConstruct: the pointer that the client gets leads back to the item, and its
  -- value lies inside the item, after the signature.
  pub get_item_base-get_allocated_pointer :
      (map : AllocatedItemMap) (base n : ℕ)
      → IsLaidOut map n
      → (pointer : ℕ) × (get_allocated_pointer alignment consts map base ≡ some pointer)
        × (get_item_base alignment consts map pointer ≡ some base)
        × (base + 1 ≤ pointer)
        × (pointer + n ≤ base + map.aligned_item_size)
  unfolding get_item_base get_allocated_pointer
  get_item_base-get_allocated_pointer map base n b =
      let back : base + map.item_value_diff - map.item_value_diff ≡ base = omega arith in
      (
        base + map.item_value_diff,
        rw b.constructed refl,
        rw (b.constructed, back) refl,
        omega (arith, b.after_signature),
        omega (arith, b.after_value, b.inside),
      )

  -- For a map after endConstruct and an aligned item: a byte of the item after the end voids that
  -- the map knows of can hold anything, and the check of an allocated item does not tell.
  pub check_allocated-unguarded :
      (map : AllocatedItemMap) (mem : Memory) (base n k v : ℕ)
      → IsLaidOut map n
      → alignment.is_aligned_address_for base map.aligned_item_size ≡ true
      → base + (map.end_voids_diff + map.end_voids_size) ≤ k
      → check_allocated alignment consts map (update mem k v) base
        ≡ check_allocated alignment consts map mem base
  unfolding allocated_item_intact
  check_allocated-unguarded map mem base n k v b a beyond =
      let written = update mem k v in
      let fill = consts.alignment_voids_fill in
      let here : written base ≡ mem base = ground (arith, b.after_signature, b.after_value) in
      let first =
        count_same map.begin_voids_size written mem (base + 1) fill
          (λ j l u. ground (arith, b.after_signature, b.after_value)) in
      let last =
        count_same map.end_voids_size written mem (base + map.end_voids_diff) fill
          (λ j l u. ground arith) in
      check_same map written base n b a
      ∙ ap assert (rw (here, first, last) refl)
      ∙ sym (check_same map mem base n b a)
