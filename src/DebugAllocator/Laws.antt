-- ===== src/DebugAllocator/Laws.antt =====
-- immutable_data_debug_allocator.h: which block `deallocate` finds for an address.
use garbage.Prelude.{
  ℕ, ◌+◌, ◌≤◌, ◌<◌, ◌≡◌, refl, sym, subst, ap, ap₂, ◌∙◌, Bool, true, false, ◌&&◌, [], ◌∷◌, ◌++◌,
  List, Option, none, some, arith, if◌then◌else◌, leb, ◌==◌, ==_iff, Bool-cases, ◌⊎◌, inl, inr,
}
use garbage.DebugAllocator.{Block, contains, find_block, deallocate}

-- Two blocks with at least one byte between them.
unfoldable pub Far : Block → Block → Type 0
Far (p, n) (q, k) = (p + n < q) ⊎ (q + k < p)

abbrev pub FarFrom : Block → List Block → Type 0
FarFrom b [] = Unit
FarFrom b (c ∷ blocks) = Far b c × FarFrom b blocks

abbrev pub Apart : List Block → Type 0
Apart [] = Unit
Apart (b ∷ blocks) = FarFrom b blocks × Apart blocks

-- The blocks by their addresses.
abbrev pub size_of_block : ℕ → List Block → Option ℕ
size_of_block p [] = none
size_of_block p ((q, n) ∷ blocks) = if q == p then some n else size_of_block p blocks

abbrev pub without : ℕ → List Block → List Block
without p [] = []
without p ((q, n) ∷ blocks) = if q == p then blocks else (q, n) ∷ without p blocks

abbrev pair : ℕ → ℕ → Block
pair p n = (p, n)

-- The first block, or one of the others.
size_first :
    (q k p : ℕ) (blocks : List Block) → (q == p) ≡ true → size_of_block p ((q, k) ∷ blocks) ≡ some k
size_first q k p blocks here = rw here refl

first_block :
    (q k p n : ℕ) (blocks : List Block)
    → (q == p) ≡ true
    → size_of_block p ((q, k) ∷ blocks) ≡ some n
    → ◌≡◌ {A = Block} (q, k) (p, n)
first_block q k p n blocks here e =
    ap₂ pair ((==_iff q p).0 here)
      (ap (λ o. elim o [ none ↦ k | some x ↦ x ]) (sym (size_first q k p blocks here) ∙ e))

other_block :
    (q k p n : ℕ) (blocks : List Block)
    → (q == p) ≡ false
    → size_of_block p ((q, k) ∷ blocks) ≡ some n
    → size_of_block p blocks ≡ some n
other_block q k p n blocks other e = sym (rw other refl) ∙ e

-- A block that is there.
Far-there :
    (b : Block) (blocks : List Block) (p n : ℕ)
    → FarFrom b blocks
    → size_of_block p blocks ≡ some n
    → Far b (p, n)
Far-there b [] p n h e = cc
Far-there b ((q, k) ∷ blocks) p n h e = elim (Bool-cases (q == p)) [
  | inl here ↦ subst (Far b) (first_block q k p n blocks here e) h.0
  | inr other ↦ Far-there b blocks p n h.1 (other_block q k p n blocks other e)
]

Far-contains : (b : Block) (p n : ℕ) → Far b (p, n) → contains b p ≡ false
unfolding Far
Far-contains (q, k) p n (inl l) = ground arith
Far-contains (q, k) p n (inr g) = ground arith

begins : (q k p : ℕ) → (q == p) ≡ true → contains (q, k) p ≡ true
begins q k p e = ground arith

found_first :
    (b : Block) (p : ℕ) (blocks : List Block)
    → contains b p ≡ true
    → find_block (b ∷ blocks) p ≡ some ([], b, blocks)
unfolding find_block
found_first b p blocks e = rw e refl

found_later :
    (b : Block) (p : ℕ) (blocks before : List Block) (c : Block) (after : List Block)
    → contains b p ≡ false
    → find_block blocks p ≡ some (before, c, after)
    → find_block (b ∷ blocks) p ≡ some (b ∷ before, c, after)
unfolding find_block
found_later b p blocks before c after e f = rw (e, f) refl

pub record Finds (p n : ℕ) (blocks : List Block) : Type 0 where
  pub before : List Block
  pub after : List Block
  pub found : find_block blocks p ≡ some (before, (p, n), after)
  pub kept : before ++ after ≡ without p blocks

find_block-Finds :
    (p n : ℕ) (blocks : List Block)
    → Apart blocks
    → size_of_block p blocks ≡ some n
    → Finds p n blocks
unfolding find_block
find_block-Finds p n [] h e = cc
find_block-Finds p n ((q, k) ∷ blocks) h e = elim (Bool-cases (q == p)) [
  | inl here ↦ record {
    before = [];
    after = blocks;
    found =
        found_first (q, k) p blocks (begins q k p here)
        ∙ ap (λ c. some ([], c, blocks)) (first_block q k p n blocks here e);
    kept = sym (rw here refl);
  }
  | inr other ↦
      let there = other_block q k p n blocks other e in
      let rest = find_block-Finds p n blocks h.1 there in
      record {
        before = (q, k) ∷ rest.before;
        after = rest.after;
        found =
            found_later (q, k) p blocks rest.before (p, n) rest.after
              (Far-contains (q, k) p n (Far-there (q, k) blocks p n h.0 there)) rest.found;
        kept = ap (λ u. (q, k) ∷ u) rest.kept ∙ sym (rw other refl);
      }
]

deallocate_found :
    (virtual_free : ℕ → Bool) (blocks before : List Block) (p n : ℕ) (after : List Block)
    (q size : ℕ)
    → find_block blocks q ≡ some (before, (p, n), after)
    → deallocate virtual_free blocks q size
      ≡ record { blocks = before ++ after; freed = some p; asserted = leb size n && virtual_free p }
unfolding deallocate
deallocate_found virtual_free blocks before p n after q size e = rw (e, deallocate) refl

-- For blocks with a gap between any two of them, the address of one of them with at most its size,
-- and a VirtualFree that succeeds for it: deallocate frees exactly this block, keeps the others in
-- their order, and its asserts hold.
pub deallocate-without :
    (virtual_free : ℕ → Bool) (blocks : List Block) (p n size : ℕ)
    → Apart blocks
    → size_of_block p blocks ≡ some n
    → size ≤ n
    → virtual_free p ≡ true
    → deallocate virtual_free blocks p size
      ≡ record { blocks = without p blocks; freed = some p; asserted = true }
deallocate-without virtual_free blocks p n size h e b v =
    let f = find_block-Finds p n blocks h e in
    let fits : leb size n ≡ true = ground arith in
    deallocate_found virtual_free blocks f.before p n f.after p size f.found
    ∙ ap₂ (λ u t. record { blocks = u; freed = some p; asserted = t }) f.kept (ap₂ ◌&&◌ fits v)

-- No block contains an address.
abbrev pub ContainNone : List Block → ℕ → Type 0
ContainNone [] p = Unit
ContainNone (b ∷ blocks) p = (contains b p ≡ false) × ContainNone blocks p

reaches : (p n : ℕ) → contains (p, n) (p + n) ≡ true
reaches p n = ground arith

find_block_after :
    (before : List Block) (b : Block) (after : List Block) (p : ℕ)
    → ContainNone before p
    → contains b p ≡ true
    → find_block (before ++ b ∷ after) p ≡ some (before, b, after)
find_block_after [] b after p h e = found_first b p after e
find_block_after (c ∷ before) b after p h e =
    found_later c p (before ++ b ∷ after) before b after h.0
      (find_block_after before b after p h.1 e)

-- Where two blocks touch, the older one first, and no block before it contains the address
-- between them: deallocate of the younger block's address frees the older one, and keeps the
-- younger.
pub deallocate_touching :
    (virtual_free : ℕ → Bool) (before between after : List Block) (p n k size : ℕ)
    → ContainNone before (p + n)
    → deallocate virtual_free (before ++ (p, n) ∷ (between ++ (p + n, k) ∷ after)) (p + n) size
      ≡ record {
        blocks = before ++ (between ++ (p + n, k) ∷ after);
        freed = some p;
        asserted = leb size n && virtual_free p;
      }
deallocate_touching virtual_free before between after p n k size h =
    deallocate_found virtual_free (before ++ (p, n) ∷ (between ++ (p + n, k) ∷ after)) before p n
      (between ++ (p + n, k) ∷ after) (p + n) size
      (find_block_after before (p, n) (between ++ (p + n, k) ∷ after) (p + n) h (reaches p n))
