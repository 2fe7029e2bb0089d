-- ===== src/MemoryPool/Bytes.antt =====
-- The memory of a pool by byte addresses, and what MemoryPoolInternalClasses.h calls on it:
-- `memset`, `std::count`, and the reads and writes of a `void*`, which are little-endian.
pub mod Laws
use garbage.Prelude.{ℕ, zero, suc, ◌+◌, ◌*◌, ◌/◌, ◌%◌, update, ◌==◌, if◌then◌else◌}

abbrev pub Memory : Type 0
Memory = ℕ → ℕ

unfoldable pub memset : Memory → ℕ → ℕ → ℕ → Memory
memset mem a v zero = mem
memset mem a v (suc n) = memset (update mem a v) (a + 1) v n

-- `std::count(a, a + n, v)`
unfoldable pub count : Memory → ℕ → ℕ → ℕ → ℕ
count mem a v zero = 0
count mem a v (suc n) = let rest = count mem (a + 1) v n in if mem a == v then suc rest else rest

unfoldable pub store_bytes : ℕ → Memory → ℕ → ℕ → Memory
store_bytes zero mem a v = mem
store_bytes (suc n) mem a v = store_bytes n (update mem a (v % 256)) (a + 1) (v / 256)

unfoldable pub load_bytes : ℕ → Memory → ℕ → ℕ
load_bytes zero mem a = 0
load_bytes (suc n) mem a = mem a + 256 * load_bytes n mem (a + 1)

-- `sizeof(void*)`
abbrev pub size_of_pointer : ℕ
size_of_pointer = 8

-- `*(void**)a`
abbrev pub load_pointer : Memory → ℕ → ℕ
load_pointer mem a = load_bytes size_of_pointer mem a

abbrev pub store_pointer : Memory → ℕ → ℕ → Memory
store_pointer mem a p = store_bytes size_of_pointer mem a p
