-- ===== src/DebugAllocator.antt =====
-- immutable_data_debug_allocator.h: the class `ImmutableDataDebugAllocatorController`, under its
-- mutex. The operating system is a parameter: `VirtualAlloc` as the address that it gives or `none`
-- for NULL, `VirtualFree` as whether it succeeds for an address. So is whether `emplace_back` throws.
-- An address is a number; an assert of `deallocate` that fails is kept as a flag, since the code
-- after it goes on. The asserts on the results of `VirtualProtect` are left out.
pub mod Laws
pub mod Runs
pub mod Tests
use garbage.Prelude.{
  ℕ, ◌+◌, Bool, true, false, ◌&&◌, [], ◌∷◌, ◌++◌, List, Option, none, some, if◌then◌else◌, leb,
  drop_last,
}

-- An entry of `m_blocks`: the address and the size.
abbrev pub Block : Type 0
Block = ℕ × ℕ

-- `m_blocks.back() = …`
unfoldable pub set_back : List Block → Block → List Block
set_back [] b = []
set_back (c ∷ []) b = b ∷ []
set_back (c ∷ d ∷ blocks) b = c ∷ set_back (d ∷ blocks) b

unfoldable pub allocate : List Block → ℕ → Bool → Option ℕ → List Block × Option ℕ
unfolding set_back
allocate blocks size false result = (blocks, none)
allocate blocks size true none = (drop_last (blocks ++ (0, 0) ∷ []), none)
allocate blocks size true (some p) = (set_back (blocks ++ (0, 0) ∷ []) (p, size), some p)

-- The predicate of the search.
abbrev pub contains : Block → ℕ → Bool
contains (first, second) memory_ptr = leb first memory_ptr && leb memory_ptr (first + second)

-- `find_if`: an iterator is the blocks before it, its block and the blocks after it.
unfoldable pub find_block : List Block → ℕ → Option (List Block × Block × List Block)
find_block [] memory_ptr = none
find_block (b ∷ blocks) memory_ptr =
    let rest = find_block blocks memory_ptr in
    if contains b memory_ptr
    then some ([], b, blocks)
    else elim rest [ none ↦ none | some (before, c, after) ↦ some (b ∷ before, c, after) ]

-- What `deallocate` does: the blocks that it leaves, the address that it gives to `VirtualFree`, and
-- whether its asserts hold.
pub record Deallocation : Type 0 where
  pub blocks : List Block
  pub freed : Option ℕ
  pub asserted : Bool

-- `virtual_free` is the result of `VirtualFree` for an address.
unfoldable pub deallocate : (ℕ → Bool) → List Block → ℕ → ℕ → Deallocation
unfolding find_block
deallocate virtual_free blocks memory_ptr size = elim (find_block blocks memory_ptr) [
  | none ↦ record { blocks = blocks; freed = none; asserted = false }
  | some (before, (first, second), after) ↦ record {
    blocks = before ++ after;
    freed = some first;
    asserted = leb size second && virtual_free first;
  }
]

-- `Protect` and `UnProtect`: the calls of `VirtualProtect`, with the access that they ask for.
pub data Access : Type 0 where
  page_readonly : Access
  page_readwrite : Access

unfoldable pub virtual_protects : Access → List Block → List (ℕ × ℕ × Access)
virtual_protects access [] = []
virtual_protects access ((first, second) ∷ blocks) =
    (first, second, access) ∷ virtual_protects access blocks

unfoldable pub protect : List Block → List (ℕ × ℕ × Access)
unfolding virtual_protects
protect blocks = virtual_protects page_readonly blocks

unfoldable pub un_protect : List Block → List (ℕ × ℕ × Access)
unfolding virtual_protects
un_protect blocks = virtual_protects page_readwrite blocks

-- The assert of the destructor.
unfoldable pub is_empty : List Block → Bool
is_empty [] = true
is_empty (b ∷ blocks) = false
