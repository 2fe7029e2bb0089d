-- ===== src/Prelude/Uniqueness.antt =====
-- Lists of addresses in which none stands twice, and how such a list splits at one of them.
use Prim.Native.Nat.{ℕ}
use mathlib.Core.Path.{◌≡◌, refl, sym, ap₂}
use mathlib.Core.Logic.{◌≢◌}
use mathlib.Core.List.{List, [], ◌∷◌, ◌++◌, head-eq_of_cons-eq, tail-eq_of_cons-eq}

abbrev pub NotIn : ℕ → List ℕ → Type 0
NotIn a [] = Unit
NotIn a (x ∷ xs) = (a ≢ x) × NotIn a xs

abbrev pub Distinct : List ℕ → Type 0
Distinct [] = Unit
Distinct (x ∷ xs) = NotIn x xs × Distinct xs

pub NotIn-append : (a : ℕ) (xs ys : List ℕ) → NotIn a xs → NotIn a ys → NotIn a (xs ++ ys)
NotIn-append a [] ys h k = k
NotIn-append a (x ∷ xs) ys h k = (h.0, NotIn-append a xs ys h.1 k)

pub NotIn-parts : (a : ℕ) (xs ys : List ℕ) → NotIn a (xs ++ ys) → NotIn a xs × NotIn a ys
NotIn-parts a [] ys h = (tt, h)
NotIn-parts a (x ∷ xs) ys h = let rest = NotIn-parts a xs ys h.1 in ((h.0, rest.0), rest.1)

-- The element in the middle is neither before nor after.
pub Distinct-middle :
    (xs : List ℕ) (a : ℕ) (ys : List ℕ) → Distinct (xs ++ a ∷ ys) → NotIn a xs × NotIn a ys
Distinct-middle [] a ys d = (tt, d.0)
Distinct-middle (x ∷ xs) a ys d =
    let rest = Distinct-middle xs a ys d.1 in
    let here = NotIn-parts x xs (a ∷ ys) d.0 in (((λ e. here.1.0 (sym e)), rest.0), rest.1)

-- Taking the middle out, or a new one put in.
pub Distinct-remove :
    (xs : List ℕ) (a : ℕ) (ys : List ℕ) → Distinct (xs ++ a ∷ ys) → Distinct (xs ++ ys)
Distinct-remove [] a ys d = d.1
Distinct-remove (x ∷ xs) a ys d =
    let here = NotIn-parts x xs (a ∷ ys) d.0 in
    (NotIn-append x xs ys here.0 here.1.1, Distinct-remove xs a ys d.1)

pub Distinct-insert :
    (xs : List ℕ) (a : ℕ) (ys : List ℕ)
    → Distinct (xs ++ ys)
    → NotIn a (xs ++ ys)
    → Distinct (xs ++ a ∷ ys)
Distinct-insert [] a ys d n = (n, d)
Distinct-insert (x ∷ xs) a ys d n =
    let here = NotIn-parts x xs ys d.0 in
    (
      NotIn-append x xs (a ∷ ys) here.0 ((λ e. n.0 (sym e)), here.1),
      Distinct-insert xs a ys d.1 n.1,
    )

-- A list splits at an element in one way, if it is not among those before.
pub split_unique :
    (xs xs' : List ℕ) (a : ℕ) (ys ys' : List ℕ)
    → xs ++ a ∷ ys ≡ xs' ++ a ∷ ys'
    → NotIn a xs
    → NotIn a xs'
    → (xs ≡ xs') × (ys ≡ ys')
split_unique [] [] a ys ys' e n n' = (refl, tail-eq_of_cons-eq e)
split_unique [] (x ∷ xs') a ys ys' e n n' = absurd (n'.0 (head-eq_of_cons-eq e))
split_unique (x ∷ xs) [] a ys ys' e n n' = absurd (n.0 (sym (head-eq_of_cons-eq e)))
split_unique (x ∷ xs) (x' ∷ xs') a ys ys' e n n' =
    let rest = split_unique xs xs' a ys ys' (tail-eq_of_cons-eq e) n.1 n'.1 in
    (ap₂ ◌∷◌ (head-eq_of_cons-eq e) rest.0, rest.1)

-- The parts of such a list.
pub Distinct-suffix : (xs ys : List ℕ) → Distinct (xs ++ ys) → Distinct ys
Distinct-suffix [] ys d = d
Distinct-suffix (x ∷ xs) ys d = Distinct-suffix xs ys d.1

pub Distinct-prefix : (xs ys : List ℕ) → Distinct (xs ++ ys) → Distinct xs
Distinct-prefix [] ys d = tt
Distinct-prefix (x ∷ xs) ys d = ((NotIn-parts x xs ys d.0).0, Distinct-prefix xs ys d.1)
