-- ===== src/Prelude/Permutations.antt =====
-- What a permutation of a list of addresses keeps.
use Prim.Native.Nat.{ℕ, suc}
use mathlib.Core.Path.{◌≡◌, refl, sym, ap, subst, ◌∙◌}
use mathlib.Core.Logic.{∥∥₁_elim}
use mathlib.Core.HLevel.{¬_prop, ×_prop, Unit-prop}
use mathlib.Core.List.{List, [], ◌∷◌, Perm, reverse, reverse_perm}
use mathlib.Core.List.{Permᴰ}
use mathlib.Core.List.Perm
use native.Mathlib.Nat.{ℕ_set}
use garbage.Prelude.Lists.{length}
use garbage.Prelude.Uniqueness.{NotIn, Distinct}

NotIn-prop : (a : ℕ) (xs : List ℕ) → IsProp (NotIn a xs)
NotIn-prop a [] = Unit-prop
NotIn-prop a (x ∷ xs) = ×_prop ¬_prop (NotIn-prop a xs)

Distinct-prop : (xs : List ℕ) → IsProp (Distinct xs)
Distinct-prop [] = Unit-prop
Distinct-prop (x ∷ xs) = ×_prop (NotIn-prop x xs) (Distinct-prop xs)

NotIn-steps : (a : ℕ) {xs ys : List ℕ} → Permᴰ xs ys → NotIn a xs → NotIn a ys
NotIn-steps a Permᴰ.nil n = n
NotIn-steps a (Permᴰ.cons e p) n = ((λ q. n.0 (q ∙ sym e)), NotIn-steps a p n.1)
NotIn-steps a (Permᴰ.swap e f) n = ((λ q. n.1.0 (q ∙ sym f)), ((λ q. n.0 (q ∙ sym e)), n.1.1))
NotIn-steps a (Permᴰ.trans p q) n = NotIn-steps a q (NotIn-steps a p n)

Distinct-steps : {xs ys : List ℕ} → Permᴰ xs ys → Distinct xs → Distinct ys
Distinct-steps Permᴰ.nil d = d
Distinct-steps (Permᴰ.cons {l₂ = ys} e p) d =
    (subst (λ u. NotIn u ys) e (NotIn-steps _ p d.0), Distinct-steps p d.1)
Distinct-steps (Permᴰ.swap {l = l} e f) d = (
  ((λ q. d.0.0 (e ∙ sym q ∙ sym f)), subst (λ u. NotIn u l) f d.1.0),
  (subst (λ u. NotIn u l) e d.0.1, d.1.1),
)
Distinct-steps (Permᴰ.trans p q) d = Distinct-steps q (Distinct-steps p d)

length-steps {ℓ} : {A : Type ℓ} {xs ys : List A} → Permᴰ xs ys → length xs ≡ length ys
length-steps Permᴰ.nil = refl
length-steps (Permᴰ.cons e p) = ap suc (length-steps p)
length-steps (Permᴰ.swap e f) = refl
length-steps (Permᴰ.trans p q) = length-steps p ∙ length-steps q

pub Distinct-Perm : (xs ys : List ℕ) → Perm xs ys → Distinct xs → Distinct ys
Distinct-Perm xs ys p d = ∥∥₁_elim p (Distinct-prop ys) (λ q. Distinct-steps q d)

pub length-Perm {ℓ} : {A : Type ℓ} (xs ys : List A) → Perm xs ys → length xs ≡ length ys
length-Perm xs ys p = ∥∥₁_elim p (ℕ_set (length xs) (length ys)) length-steps

pub Perm-reverse {ℓ} : {A : Type ℓ} (xs : List A) → Perm xs (reverse xs)
Perm-reverse xs = Perm.symm (reverse_perm xs)
