-- ===== src/DebugAllocator/Runs.antt =====
-- immutable_data_debug_allocator.h: calls one after another, against the blocks by their addresses.
use garbage.Prelude.{
  ℕ, ◌+◌, ◌%◌, ◌≤◌, ◌<◌, ==_iff, ◌≡◌, ◌≢◌, ◌⊎◌, arith, refl, ap, ◌∙◌, Bool, true, false, ◌&&◌, [],
  ◌∷◌, ◌++◌, List, Option, none, some, ◌==◌, Bool-cases, inl, inr, drop_last,
}
use garbage.DebugAllocator.{Block, set_back, allocate, deallocate}
use garbage.DebugAllocator.Laws.{Far, FarFrom, Apart, size_of_block, without, deallocate-without}

-- A call, with what `emplace_back` and `VirtualAlloc` do in it.
pub data Call : Type 0 where
  allocates : ℕ → Bool → Option ℕ → Call
  deallocates : ℕ → ℕ → Call

-- The addresses that go to `VirtualFree`, and whether every assert holds.
pub record Run : Type 0 where
  pub blocks : List Block
  pub freed : List (Option ℕ)
  pub asserted : Bool

unfoldable pub run : (ℕ → Bool) → List Block → List Call → Run
unfolding allocate deallocate
run virtual_free blocks [] = record { blocks = blocks; freed = []; asserted = true }
run virtual_free blocks (allocates size emplaces result ∷ calls) =
    run virtual_free (allocate blocks size emplaces result).0 calls
run virtual_free blocks (deallocates p size ∷ calls) =
    let d = deallocate virtual_free blocks p size in
    let rest = run virtual_free d.blocks calls in
    record {
      blocks = rest.blocks;
      freed = d.freed ∷ rest.freed;
      asserted = d.asserted && rest.asserted;
    }

-- The blocks that the calls leave to their callers.
abbrev pub live : List Block → List Call → List Block
live blocks [] = blocks
live blocks (allocates size true (some p) ∷ calls) = live (blocks ++ (p, size) ∷ []) calls
live blocks (allocates size true none ∷ calls) = live blocks calls
live blocks (allocates size false result ∷ calls) = live blocks calls
live blocks (deallocates p size ∷ calls) = live (without p blocks) calls

abbrev pub given_back : List Call → List (Option ℕ)
given_back [] = []
given_back (allocates size emplaces result ∷ calls) = given_back calls
given_back (deallocates p size ∷ calls) = some p ∷ given_back calls

-- A region of `VirtualAlloc`: it begins at a multiple of 64 KiB, and its size is none.
unfoldable pub IsRegion : Block → Type 0
IsRegion (p, n) = (p % 65536 ≡ 0) × (n % 65536 ≢ 0)

-- Two regions that have no byte in common, but may touch.
unfoldable pub Disjoint : Block → Block → Type 0
Disjoint (p, n) (q, k) = (p + n ≤ q) ⊎ (q + k ≤ p)

abbrev pub DisjointFrom : Block → List Block → Type 0
DisjointFrom b [] = Unit
DisjointFrom b (c ∷ blocks) = Disjoint b c × DisjointFrom b blocks

abbrev pub AllRegions : List Block → Type 0
AllRegions [] = Unit
AllRegions (b ∷ blocks) = IsRegion b × DisjointFrom b blocks × AllRegions blocks

-- New memory is a region without a byte of the blocks that there are. An address is given back at
-- most once, with a size that is not larger than its own, and `VirtualFree` succeeds for it.
abbrev pub Follows : (ℕ → Bool) → List Block → List Call → Type 0
Follows virtual_free blocks [] = Unit
Follows virtual_free blocks (allocates size true (some p) ∷ calls) =
    IsRegion (p, size)
    × DisjointFrom (p, size) blocks
    × Follows virtual_free (blocks ++ (p, size) ∷ []) calls
Follows virtual_free blocks (allocates size true none ∷ calls) = Follows virtual_free blocks calls
Follows virtual_free blocks (allocates size false result ∷ calls) =
    Follows virtual_free blocks calls
Follows virtual_free blocks (deallocates p size ∷ calls) =
    ((n : ℕ) × (size_of_block p blocks ≡ some n) × (size ≤ n))
    × (virtual_free p ≡ true)
    × Follows virtual_free (without p blocks) calls

-- `allocate` puts the new block at the end, or leaves the blocks as they were.
set_back-snoc :
    (blocks : List Block) (b c : Block) → set_back (blocks ++ c ∷ []) b ≡ blocks ++ b ∷ []
unfolding set_back
set_back-snoc [] b c = refl
set_back-snoc (d ∷ []) b c = refl
set_back-snoc (d ∷ e ∷ blocks) b c = ap (λ u. d ∷ u) (set_back-snoc (e ∷ blocks) b c)

drop_last-snoc : (blocks : List Block) (c : Block) → drop_last (blocks ++ c ∷ []) ≡ blocks
drop_last-snoc [] c = refl
drop_last-snoc (d ∷ []) c = refl
drop_last-snoc (d ∷ e ∷ blocks) c = ap (λ u. d ∷ u) (drop_last-snoc (e ∷ blocks) c)

-- Regions that have no byte in common have a gap, since none ends at a multiple of 64 KiB.
no_touch : (p n q : ℕ) → p % 65536 ≡ 0 → n % 65536 ≢ 0 → q % 65536 ≡ 0 → p + n ≡ q → ⊥
no_touch p n q a b c e = b (omega (arith, a, c, e))

before : (p n q : ℕ) → p % 65536 ≡ 0 → n % 65536 ≢ 0 → q % 65536 ≡ 0 → p + n ≤ q → p + n < q
before p n q a b c l = elim (Bool-cases (p + n == q)) [
  | inl touch ↦ absurd (no_touch p n q a b c ((==_iff (p + n) q).0 touch))
  | inr apart ↦ ground (arith, l, apart)
]

Disjoint-Far : (b c : Block) → IsRegion b → IsRegion c → Disjoint b c → Far b c
unfolding IsRegion Disjoint Far
Disjoint-Far (p, n) (q, k) r s (inl l) = inl (before p n q r.0 r.1 s.0 l)
Disjoint-Far (p, n) (q, k) r s (inr l) = inr (before q k p s.0 s.1 r.0 l)

DisjointFrom-FarFrom :
    (b : Block) (blocks : List Block)
    → IsRegion b
    → DisjointFrom b blocks
    → AllRegions blocks
    → FarFrom b blocks
DisjointFrom-FarFrom b [] r d h = tt
DisjointFrom-FarFrom b (c ∷ blocks) r d h =
    (Disjoint-Far b c r h.0 d.0, DisjointFrom-FarFrom b blocks r d.1 h.2)

AllRegions-Apart : (blocks : List Block) → AllRegions blocks → Apart blocks
AllRegions-Apart [] h = tt
AllRegions-Apart (b ∷ blocks) h =
    (DisjointFrom-FarFrom b blocks h.0 h.1 h.2, AllRegions-Apart blocks h.2)

Disjoint-sym : (b c : Block) → Disjoint b c → Disjoint c b
unfolding Disjoint
Disjoint-sym (p, n) (q, k) (inl l) = inr l
Disjoint-sym (p, n) (q, k) (inr l) = inl l

DisjointFrom-snoc :
    (b : Block) (blocks : List Block) (c : Block)
    → DisjointFrom b blocks
    → Disjoint b c
    → DisjointFrom b (blocks ++ c ∷ [])
DisjointFrom-snoc b [] c h f = (f, tt)
DisjointFrom-snoc b (d ∷ blocks) c h f = (h.0, DisjointFrom-snoc b blocks c h.1 f)

AllRegions-snoc :
    (blocks : List Block) (c : Block)
    → AllRegions blocks
    → IsRegion c
    → DisjointFrom c blocks
    → AllRegions (blocks ++ c ∷ [])
AllRegions-snoc [] c h r f = (r, tt, tt)
AllRegions-snoc (b ∷ blocks) c h r f = (
  h.0,
  DisjointFrom-snoc b blocks c h.1 (Disjoint-sym c b f.0),
  AllRegions-snoc blocks c h.2 r f.1,
)

DisjointFrom-without :
    (b : Block) (p : ℕ) (blocks : List Block)
    → DisjointFrom b blocks
    → DisjointFrom b (without p blocks)
DisjointFrom-without b p [] h = tt
DisjointFrom-without b p ((q, k) ∷ blocks) h = elim (Bool-cases (q == p)) [
  | inl here ↦ rw here h.1
  | inr other ↦ rw other (h.0, DisjointFrom-without b p blocks h.1)
]

AllRegions-without :
    (p : ℕ) (blocks : List Block) → AllRegions blocks → AllRegions (without p blocks)
AllRegions-without p [] h = tt
AllRegions-without p ((q, k) ∷ blocks) h = elim (Bool-cases (q == p)) [
  | inl here ↦ rw here h.2
  | inr other ↦
      rw other (h.0, DisjointFrom-without (q, k) p blocks h.1, AllRegions-without p blocks h.2)
]

allocate_new :
    (blocks : List Block) (size p : ℕ)
    → (allocate blocks size true (some p)).0 ≡ blocks ++ (p, size) ∷ []
unfolding allocate
allocate_new blocks size p = set_back-snoc blocks (p, size) (0, 0)

allocate-none : (blocks : List Block) (size : ℕ) → (allocate blocks size true none).0 ≡ blocks
unfolding allocate
allocate-none blocks size = drop_last-snoc blocks (0, 0)

allocate_throws :
    (blocks : List Block) (size : ℕ) (result : Option ℕ)
    → (allocate blocks size false result).0 ≡ blocks
unfolding allocate
allocate_throws blocks size result = refl

-- For calls in any order from blocks that are regions without a common byte, where VirtualAlloc
-- gives such regions, at multiples of 64 KiB, no size is such a multiple, and every address is
-- given back once, with at most its size and a VirtualFree that succeeds for it: the blocks that
-- the controller keeps are those that were not given back, it frees exactly the addresses that
-- are given back, in their order, and the asserts of deallocate hold.
pub run-live :
    (virtual_free : ℕ → Bool) (blocks : List Block) (calls : List Call)
    → AllRegions blocks
    → Follows virtual_free blocks calls
    → run virtual_free blocks calls
      ≡ record { blocks = live blocks calls; freed = given_back calls; asserted = true }
unfolding run
run-live virtual_free blocks [] h f = refl
run-live virtual_free blocks (allocates size true (some p) ∷ calls) h f =
    ap (λ u. run virtual_free u calls) (allocate_new blocks size p)
    ∙ run-live virtual_free (blocks ++ (p, size) ∷ []) calls
        (AllRegions-snoc blocks (p, size) h f.0 f.1) f.2
run-live virtual_free blocks (allocates size true none ∷ calls) h f =
    ap (λ u. run virtual_free u calls) (allocate-none blocks size)
    ∙ run-live virtual_free blocks calls h f
run-live virtual_free blocks (allocates size false result ∷ calls) h f =
    ap (λ u. run virtual_free u calls) (allocate_throws blocks size result)
    ∙ run-live virtual_free blocks calls h f
run-live virtual_free blocks (deallocates p size ∷ calls) h f =
    rw
      (
        deallocate-without virtual_free blocks p f.0.0 size (AllRegions-Apart blocks h) f.0.1 f.0.2
            f.1,
        run-live virtual_free (without p blocks) calls (AllRegions-without p blocks h) f.2,
      )
      refl
