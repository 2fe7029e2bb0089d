-- ===== src/RandomAccessList/Assigning/Laws.antt =====
-- random_access_list.hpp: `assign` and `resize` on the sequence of values.
use garbage.Prelude.{
  returns, ◌>>=◌, ℕ, zero, suc, ◌+◌, ◌-◌, ◌≤◌, ◌<◌, ◌≡◌, refl, sym, subst, ap, ◌∙◌, true, false, [],
  ◌∷◌, ◌++◌, List, Option, some, arith, Distinct, length, length-append, take, leb, size_mod,
}
use mathlib.Core.List.{map-append}
use garbage.RandomAccessList.Stump.{Stump}
use garbage.RandomAccessList.Stump.Laws.{first_or, all_nodes, Holds}
use garbage.RandomAccessList.Container.{insert, pop_back, list_size}
use garbage.RandomAccessList.Container.Insertion.{contents, AllFresh}
use garbage.RandomAccessList.Container.RangeInsertion.{made_of, nodes_of, values_of, insert_lem}
use garbage.RandomAccessList.Container.Erasure.{pop_back_lem}
use garbage.RandomAccessList.Container.Reading.{list_size-length, length-map}
use garbage.RandomAccessList.Assigning.{pop_backs, resize, ignore_result}

take-append {ℓ} :
    {A : Type ℓ} (n : ℕ) (xs ys : List A) → n ≤ length xs → take n (xs ++ ys) ≡ take n xs
take-append zero xs ys b = refl
take-append (suc n) [] ys b = absurd (omega arith)
take-append (suc n) (x ∷ xs) ys b = ap (λ u. x ∷ u) (take-append n xs ys (omega arith))

take-all {ℓ} : {A : Type ℓ} (xs : List A) → take (length xs) xs ≡ xs
take-all [] = refl
take-all (x ∷ xs) = ap (λ u. x ∷ u) (take-all xs)

-- Every list but the empty one ends in a last element.
snoc_of {ℓ} : {A : Type ℓ} (x : A) (xs : List A) → (ys : List A) × (y : A) × (x ∷ xs ≡ ys ++ y ∷ [])
snoc_of x [] = ([], x, refl)
snoc_of x (z ∷ xs) = let (ys, y, e) = snoc_of z xs in (x ∷ ys, y, ap (λ u. x ∷ u) e)

module _ {ℓ} {T : Type ℓ} where
  pop_backs-step :
      (n : ℕ) (st st' : Stump T) (it : ℕ) {result : Option (Stump T)}
      → pop_back st ≡ some (st', it)
      → pop_backs n st' ≡ result
      → pop_backs (suc n) st ≡ result
  unfolding pop_backs
  pop_backs-step n st st' it once rest = ap (λ o. o >>= λ p. pop_backs n p.0) once ∙ rest

  pop_backs-take :
      (n : ℕ) (st : Stump T) (ids : List ℕ) (rest : ℕ)
      → Holds st ids
      → rest + n ≡ length ids
      → (st' : Stump T) × (pop_backs n st ≡ some st')
        × Holds st' (take rest ids)
        × (contents st' (take rest ids) ≡ take rest (contents st ids))
  unfolding pop_backs
  pop_backs-take zero st ids rest h b =
      let all : take rest ids ≡ ids = ap (λ n. take n ids) (omega (arith, b)) ∙ take-all ids in
      (
        st,
        refl,
        subst (Holds st) (sym all) h,
        ap (contents st) all
            ∙ sym (take-all (contents st ids))
            ∙ ap (λ n. take n (contents st ids)) (omega (arith, b, length-map st.values ids)),
      )
  pop_backs-take (suc n) st [] rest h b = absurd (omega (arith, b))
  pop_backs-take (suc n) st (x ∷ xs) rest h b =
      let (ys, y, e) = snoc_of x xs in
      let counted = ap length e ∙ length-append ys (y ∷ []) in
      let short : take rest (x ∷ xs) ≡ take rest ys =
        ap (take rest) e ∙ take-append rest ys (y ∷ []) (omega (arith, b, counted)) in
      let (st', once, holds, same) = pop_back_lem st ys y (subst (Holds st) e h) in
      let (st'', runs, last, values) =
        pop_backs-take n st' ys rest holds (omega (arith, b, counted)) in
      (
        st'',
        pop_backs-step n st st' _ once runs,
        subst (Holds st'') (sym short) last,
        ap (contents st'') short
            ∙ values
            ∙ ap (take rest) same
            ∙ sym (
                take-append rest (contents st ys) (contents st (y ∷ []))
                  (omega (arith, b, counted, length-map st.values ys)))
            ∙ ap (take rest) (sym (map-append st.values ys (y ∷ [])))
            ∙ ap (λ u. take rest (contents st u)) (sym e),
      )

  resize_down :
      (st st' : Stump T) (count : ℕ) (make : ℕ → List (ℕ × Option T))
      → leb (list_size st) count ≡ false
      → pop_backs (list_size st - count) st ≡ some st'
      → resize st count make ≡ some (returns st' tt)
  unfolding resize
  resize_down st st' count make b r = rw (b, r, resize) refl

  -- In a container with the invariant of selfCheckIfConstructed, resize to a smaller count keeps
  -- exactly that many values from the front and the invariant, whatever it is to make.
  pub resize-take :
      (st : Stump T) (ids : List ℕ) (count : ℕ) (make : ℕ → List (ℕ × Option T))
      → Holds st ids
      → count < length ids
      → (st' : Stump T) × (resize st count make ≡ some (returns st' tt))
        × Holds st' (take count ids)
        × (contents st' (take count ids) ≡ take count (contents st ids))
  resize-take st ids count make h b =
      let counted = list_size-length st ids h ∙ length-map st.values ids in
      let larger : leb (list_size st) count ≡ false = ground (arith, counted) in
      let (st', runs, holds, values) =
        pop_backs-take (list_size st - count) st ids count h (omega (arith, b, counted)) in
      (st', resize_down st st' count make larger runs, holds, values)

  resize_up :
      (st st' : Stump T) (first it count : ℕ) (make : ℕ → List (ℕ × Option T))
      → leb (list_size st) count ≡ true
      → st.begin ≡ some first
      → insert st first (make (count - list_size st)) ≡ some (returns st' it)
      → resize st count make ≡ some (returns st' tt)
  unfolding resize
  resize_up st st' first it count make b f r =
      rw (b, resize)
        (ap
            (λ o.
              o >>= λ a. insert st a (make (count - list_size st)) >>= λ q. some (ignore_result q))
            f
          ∙ ap (λ o. o >>= λ q. some (ignore_result q)) r)

  -- In a container with the invariant of selfCheckIfConstructed, with fresh distinct node
  -- addresses and a node count that stays below 2^64: where every constructor of the new values
  -- succeeds, resize to a count that is not smaller puts the new values before all old ones.
  pub resize-append :
      (st : Stump T) (ids : List ℕ) (count : ℕ) (items : List (ℕ × T))
      → Holds st ids
      → count ≡ length ids + length items
      → Distinct (nodes_of items)
      → AllFresh st ids (nodes_of items)
      → length (all_nodes st ids) + length (nodes_of items) < size_mod
      → (st' : Stump T) × (resize st count (λ n. made_of (take n items)) ≡ some (returns st' tt))
        × Holds st' (nodes_of items ++ ids)
        × (contents st' (nodes_of items ++ ids) ≡ values_of items ++ contents st ids)
  resize-append st ids count items h total d f b =
      let counted = list_size-length st ids h ∙ length-map st.values ids in
      let larger : leb (list_size st) count ≡ true = ground (arith, counted) in
      let all : take (count - list_size st) items ≡ items =
        ap (λ n. take n items) (omega (arith, counted, total)) ∙ take-all items in
      let (st', runs, holds, values) = insert_lem st [] ids items h d f b in
      (
        st',
        resize_up st st' (first_or ids st.end) _ count (λ n. made_of (take n items)) larger h.begins
            (ap (λ u. insert st (first_or ids st.end) (made_of u)) all ∙ runs),
        holds,
        values,
      )
