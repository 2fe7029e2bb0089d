-- ===== src/MemoryPool/Bytes/Laws.antt =====
-- What the memory functions leave at each address.
use garbage.Prelude.{
  ℕ, zero, suc, ◌+◌, ◌*◌, ◌/◌, ◌%◌, ◌≤◌, ◌<◌, ◌≡◌, ◌≢◌, refl, ap, ◌∙◌, false, ◌⊎◌, inl, inr, arith,
  update, ◌==◌, Bool-cases, ==_iff,
}
use garbage.MemoryPool.Bytes.{Memory, memset, count, store_bytes, load_bytes}

pub memset_outside :
    (n : ℕ) (mem : Memory) (a v k : ℕ) → (k < a) ⊎ (a + n ≤ k) → memset mem a v n k ≡ mem k
unfolding memset
memset_outside zero mem a v k o = refl
memset_outside (suc n) mem a v k o =
    let other : a ≢ k = ground arith in
    memset_outside n (update mem a v) (a + 1) v k (ground arith) ∙ ground arith

pub memset_inside : (n : ℕ) (mem : Memory) (a v k : ℕ) → a ≤ k → k < a + n → memset mem a v n k ≡ v
unfolding memset
memset_inside zero mem a v k l u = absurd (omega arith)
memset_inside (suc n) mem a v k l u = elim (Bool-cases (a == k)) [
  | inl here ↦ memset_outside n (update mem a v) (a + 1) v k (inl (ground arith)) ∙ ground arith
  | inr there ↦ memset_inside n (update mem a v) (a + 1) v k (ground arith) (omega arith)
]

pub count_all :
    (n : ℕ) (mem : Memory) (a v : ℕ)
    → ((k : ℕ) → a ≤ k → k < a + n → mem k ≡ v)
    → count mem a v n ≡ n
unfolding count
count_all zero mem a v all = refl
count_all (suc n) mem a v all =
    let rest = count_all n mem (a + 1) v (λ k l u. all k (omega arith) (omega arith)) in
    let here = all a (omega arith) (omega arith) in ground arith

pub count-le : (n : ℕ) (mem : Memory) (a v : ℕ) → count mem a v n ≤ n
unfolding count
count-le zero mem a v = omega arith
count-le (suc n) mem a v = let rest = count-le n mem (a + 1) v in ground arith

-- One other byte shows in the count.
pub count-lt :
    (n : ℕ) (mem : Memory) (a v k : ℕ) → a ≤ k → k < a + n → mem k ≢ v → count mem a v n < n
unfolding count
count-lt zero mem a v k l u ne = absurd (omega arith)
count-lt (suc n) mem a v k l u ne = elim (Bool-cases (a == k)) [
  | inl here ↦
      let same = (==_iff a k).0 here in
      let rest = count-le n mem (a + 1) v in
      let other : (mem a == v) ≡ false = ground (arith, ne, ap mem same) in rw other (omega arith)
  | inr there ↦
      let rest = count-lt n mem (a + 1) v k (ground arith) (omega arith) ne in ground arith
]

-- The count reads no other byte.
pub count_same :
    (n : ℕ) (mem mem' : Memory) (a v : ℕ)
    → ((k : ℕ) → a ≤ k → k < a + n → mem k ≡ mem' k)
    → count mem a v n ≡ count mem' a v n
unfolding count
count_same zero mem mem' a v same = refl
count_same (suc n) mem mem' a v same =
    let rest = count_same n mem mem' (a + 1) v (λ k l u. same k (omega arith) (omega arith)) in
    let here = same a (omega arith) (omega arith) in rw (here, rest) refl

pub store_outside :
    (n : ℕ) (mem : Memory) (a v k : ℕ) → (k < a) ⊎ (a + n ≤ k) → store_bytes n mem a v k ≡ mem k
unfolding store_bytes
store_outside zero mem a v k o = refl
store_outside (suc n) mem a v k o =
    let other : a ≢ k = ground arith in
    store_outside n (update mem a (v % 256)) (a + 1) (v / 256) k (ground arith) ∙ ground arith

-- The numbers that fit in `n` bytes.
abbrev pub bytes_limit : ℕ → ℕ
bytes_limit zero = 1
bytes_limit (suc n) = 256 * bytes_limit n

pub load-store :
    (n : ℕ) (mem : Memory) (a v : ℕ)
    → v < bytes_limit n
    → load_bytes n (store_bytes n mem a v) a ≡ v
unfolding load_bytes store_bytes
load-store zero mem a v b = omega arith
load-store (suc n) mem a v b =
    let first = store_outside n (update mem a (v % 256)) (a + 1) (v / 256) a (inl (omega arith)) in
    let here : update mem a (v % 256) a ≡ v % 256 = ground arith in
    let rest = load-store n (update mem a (v % 256)) (a + 1) (v / 256) (omega arith) in
    omega (arith, first, here, rest)
