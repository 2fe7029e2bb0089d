-- ===== src/ExceptionTracker/Lists.antt =====
-- Lists of pieces: what comes after some of them, and a list that stands inside another in its order.
use mathlib.Core.List.{Sublistᴰ}
use garbage.Prelude.{ℕ, zero, suc, ◌≡◌, refl, ap, [], ◌∷◌, ◌++◌, List, take}

module _ {ℓ} {A : Type ℓ} where
  abbrev pub drop : ℕ → List A → List A
  drop zero xs = xs
  drop (suc n) [] = []
  drop (suc n) (x ∷ xs) = drop n xs

  pub take-append-drop : (n : ℕ) (xs : List A) → take n xs ++ drop n xs ≡ xs
  take-append-drop zero xs = refl
  take-append-drop (suc n) [] = refl
  take-append-drop (suc n) (x ∷ xs) = ap (λ u. x ∷ u) (take-append-drop n xs)

  pub Sublist-self : (xs : List A) → Sublistᴰ xs xs
  Sublist-self [] = Sublistᴰ.slnil
  Sublist-self (x ∷ xs) = Sublistᴰ.cons-cons refl (Sublist-self xs)

  pub Sublist_nil : (xs : List A) → Sublistᴰ [] xs
  Sublist_nil [] = Sublistᴰ.slnil
  Sublist_nil (x ∷ xs) = Sublistᴰ.cons (Sublist_nil xs)

  pub Sublist-append :
      {xs ys us vs : List A} → Sublistᴰ xs ys → Sublistᴰ us vs → Sublistᴰ (xs ++ us) (ys ++ vs)
  Sublist-append Sublistᴰ.slnil s = s
  Sublist-append (Sublistᴰ.cons r) s = Sublistᴰ.cons (Sublist-append r s)
  Sublist-append (Sublistᴰ.cons-cons e r) s = Sublistᴰ.cons-cons e (Sublist-append r s)
