-- ===== src/MemoryPool/AllocatedItem/Layout.antt =====
-- MemoryPoolInternalClasses.h: where the parts of an allocated item lie, and which bytes of a larger
-- item `endConstruct` leaves out.
use garbage.Prelude.{
  ℕ, ◌+◌, ◌-◌, ◌^◌, ◌≤◌, ◌<◌, ◌≡◌, refl, ap, ap₂, ◌∙◌, Bool, true, false, ◌&&◌, some, arith, leb,
  ltb, add_size, sub_size, size_mod, add_size-exact, sub_size-exact,
}
use garbage.MemoryPool.Strategy.{Alignment, RoundsUp, CheckingConsts}
use garbage.MemoryPool.AllocatedItem.{
  AllocatedItemMap, not_negative, new_allocated_map, end_construct_allocated,
}

-- The signature, the value and the void bytes lie one after another in the item.
pub record IsLaidOut (map : AllocatedItemMap) (max_item_size : ℕ) : Type 0 where
  pub constructed : map.end_construct ≡ true
  pub value : map.item_value_size ≡ max_item_size
  pub not_empty : 1 ≤ max_item_size
  pub after_signature : map.item_value_diff ≡ 1 + map.begin_voids_size
  pub after_value : map.end_voids_diff ≡ map.item_value_diff + max_item_size
  pub inside : map.end_voids_diff + map.end_voids_size ≤ map.aligned_item_size
  pub small : map.end_voids_diff < 2 ^ 63

module _ (alignment : Alignment) (consts : CheckingConsts) where
  -- The size of an item that the constructor works out.
  abbrev pub item_size : ℕ → ℕ
  item_size n = alignment.align_size (alignment.align_address_for 1 n + n)

  -- The map with an item of `size` bytes, of which the constructor knows `item_size`.
  abbrev pub layout : ℕ → ℕ → Bool → AllocatedItemMap
  layout n size done =
      let diff = alignment.align_address_for 1 n in
      record {
        aligned_item_size = size;
        begin_voids_size = sub_size diff 1;
        item_size_without_end_voids = add_size diff n;
        end_voids_size = sub_size (alignment.align_size (add_size diff n)) (add_size diff n);
        item_value_size = n;
        end_voids_diff = add_size diff n;
        item_value_diff = diff;
        end_construct = done;
      }

  -- The sizes that the theorems are for: a value with its alignment takes less than 2^63 bytes, and
  -- `real` is an aligned size that is not less than the map asks for.
  pub record IsRealSize (n real : ℕ) : Type 0 where
    pub not_empty : 1 ≤ n
    pub small : alignment.align_address_for 1 n + n < 2 ^ 63
    pub enough : item_size n ≤ real
    pub aligned : alignment.is_aligned_size real ≡ true
    pub fits : real < size_mod

  without_end_voids :
      (n real : ℕ)
      → IsRealSize n real
      → add_size (alignment.align_address_for 1 n) n ≡ alignment.align_address_for 1 n + n
  without_end_voids n real s = add_size-exact _ n (omega (arith, s.small))

  constructs :
      (n real : ℕ)
      → RoundsUp alignment
      → IsRealSize n real
      → new_allocated_map alignment consts n
        ≡ some
            (layout n (alignment.align_size (add_size (alignment.align_address_for 1 n) n)) false)
  unfolding new_allocated_map
  constructs n real r s =
      let first = r.address 1 n in
      let positive : ltb 0 n ≡ true = ground (arith, s.not_empty) in
      let after : (not_negative (alignment.align_address_for 1 n)
            && leb 1 (alignment.align_address_for 1 n))
          ≡ true =
        ground (arith, first, s.small) in
      rw (positive, after) refl

  ends_construct :
      (n real : ℕ)
      → IsRealSize n real
      → end_construct_allocated alignment consts
          (layout n (alignment.align_size (add_size (alignment.align_address_for 1 n) n)) false)
          real
        ≡ some (layout n real true)
  unfolding end_construct_allocated
  ends_construct n real s =
      let enough : leb (alignment.align_size (add_size (alignment.align_address_for 1 n) n)) real
          ≡ true =
        ground (arith, ap alignment.align_size (without_end_voids n real s), s.enough) in
      let still : leb real real ≡ true = ground arith in
      let stale : ltb real real ≡ false = ground arith in rw (enough, s.aligned, still, stale) refl

  voids_after_value :
      (n real : ℕ)
      → RoundsUp alignment
      → IsRealSize n real
      → sub_size
          (alignment.align_size (add_size (alignment.align_address_for 1 n) n))
          (add_size (alignment.align_address_for 1 n) n)
        ≡ item_size n - (alignment.align_address_for 1 n + n)
  voids_after_value n real r s =
      let sum = without_end_voids n real s in
      ap₂ sub_size (ap alignment.align_size sum) sum
      ∙ sub_size-exact (item_size n) _ (r.size (alignment.align_address_for 1 n + n))
          (omega (arith, s.enough, s.fits))

  layout-IsLaidOut :
      (n real : ℕ) → RoundsUp alignment → IsRealSize n real → IsLaidOut (layout n real true) n
  layout-IsLaidOut n real r s =
      let sum = without_end_voids n real s in
      let first = r.address 1 n in
      let padded = r.size (alignment.align_address_for 1 n + n) in
      let voids = voids_after_value n real r s in
      record {
        constructed = refl;
        value = refl;
        not_empty = s.not_empty;
        after_signature = omega (
          arith,
          first,
          sub_size-exact (alignment.align_address_for 1 n) 1 first (omega (arith, s.small)),
        );
        after_value = sum;
        inside = omega (arith, voids, sum, padded, s.enough);
        small = omega (arith, sum, s.small);
      }

  -- For an alignment that never makes a size or an address smaller, a value that is not empty and
  -- with its alignment takes less than 2^63 bytes, and an aligned item size below 2^64 that is
  -- not less than the map asks for: the constructor and endConstruct succeed, the signature, the
  -- begin voids, the value and the end voids lie one after another inside the item, and the end
  -- voids stop at the size that the constructor worked out.
  pub end_construct_allocated-IsLaidOut :
      (n real : ℕ)
      → RoundsUp alignment
      → IsRealSize n real
      → (fresh : AllocatedItemMap) × (map : AllocatedItemMap) × (new_allocated_map alignment consts
            n
          ≡ some fresh)
        × (end_construct_allocated alignment consts fresh real ≡ some map)
        × (map.aligned_item_size ≡ real)
        × (map.end_voids_diff + map.end_voids_size ≡ item_size n)
        × IsLaidOut map n
  end_construct_allocated-IsLaidOut n real r s =
      let padded = r.size (alignment.align_address_for 1 n + n) in
      (
        _,
        layout n real true,
        constructs n real r s,
        ends_construct n real s,
        refl,
        omega (arith, without_end_voids n real s, voids_after_value n real r s, padded),
        layout-IsLaidOut n real r s,
      )
