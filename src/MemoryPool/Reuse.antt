-- ===== src/MemoryPool/Reuse.antt =====
-- MemoryPoolInternalClasses.h: an item that is given back twice, or to another pool, is found.
use garbage.Prelude.{
  ℕ, ◌+◌, ◌≤◌, ◌≡◌, ◌≢◌, refl, sym, ap, ◌∙◌, ◌↔◌, true, ◌&&◌, some, arith, leb, leb→le,
}
use garbage.MemoryPool.Bytes.{Memory}
use garbage.MemoryPool.Strategy.{Alignment, CheckingConsts, assert, item_belong_buffer}
use garbage.MemoryPool.FreeItem.{FreeItemMap, check_free}
use garbage.MemoryPool.FreeItem.Laws.{IsBuilt, check_free-exact, both_true, assert-true}
use garbage.MemoryPool.AllocatedItem.{AllocatedItemMap, check_allocated, belong_pool_check_strict}
use garbage.MemoryPool.AllocatedItem.Layout.{IsLaidOut}
use garbage.MemoryPool.AllocatedItem.Laws.{check_allocated-exact}

module _ (alignment : Alignment) (consts : CheckingConsts) where
  -- For maps after endConstruct, an aligned item and two different signatures: no item passes
  -- both the check of a free item and the check of an allocated one.
  pub check_allocated-not-check_free :
      (free : FreeItemMap) (allocated : AllocatedItemMap) (mem : Memory) (base n : ℕ)
      → IsBuilt alignment consts free
      → IsLaidOut allocated n
      → alignment.is_aligned_address_for base free.aligned_item_size ≡ true
      → alignment.is_aligned_address_for base allocated.aligned_item_size ≡ true
      → consts.signature_and_pool_item_free ≢ consts.signature_and_pool_item_allocated
      → check_free alignment consts free mem base ≡ some tt
      → check_allocated alignment consts allocated mem base ≢ some tt
  check_allocated-not-check_free free allocated mem base n b l a a' ne f e =
      let is_free = (check_free-exact alignment consts free mem base b a ne).0 f in
      let is_allocated =
        (check_allocated-exact alignment consts allocated mem base n l a' ne).0 e in
      ne (sym is_free.signature ∙ is_allocated.signature)

  -- For a map after endConstruct and aligned arguments: the strict pool check passes exactly if
  -- the whole item lies in the buffer of the pool.
  pub belong_pool_check_strict-exact :
      (map : AllocatedItemMap) (base n first_item size_at_bytes : ℕ)
      → IsLaidOut map n
      → alignment.is_aligned_address_for base map.aligned_item_size ≡ true
      → alignment.is_aligned_address_for first_item map.aligned_item_size ≡ true
      → alignment.is_aligned_size size_at_bytes ≡ true
      → (belong_pool_check_strict alignment consts map base first_item size_at_bytes ≡ some tt)
        ↔ ((first_item ≤ base) × (base + map.aligned_item_size ≤ first_item + size_at_bytes))
  unfolding belong_pool_check_strict item_belong_buffer
  belong_pool_check_strict-exact map base n first_item size_at_bytes b a f s =
      let same : belong_pool_check_strict alignment consts map base first_item size_at_bytes
          ≡ assert (
              leb first_item base
              && leb (base + map.aligned_item_size) (first_item + size_at_bytes)) =
        rw (b.constructed, a, f, s, item_belong_buffer) refl in
      let inside = leb first_item base in
      let below = leb (base + map.aligned_item_size) (first_item + size_at_bytes) in
      (
        (λ e.
            let (first, last) = both_true inside below (assert-true _ (sym same ∙ e)) in
            (leb→le first_item base first, leb→le _ _ last)),
        (λ r.
            let first : inside ≡ true = ground (arith, r.0) in
            let last : below ≡ true = ground (arith, r.1) in
            let whole : (inside && below) ≡ true = rw (first, last) refl in same ∙ ap assert whole),
      )
