-- ===== src/RandomAccessList/Filtering/Repeats.antt =====
-- random_access_list.hpp: `unique` as a function of the sequence of values.
use garbage.Prelude.{
  ◌>>=◌, ℕ, zero, suc, ◌<◌, ◌≡◌, refl, sym, subst, ap, ap₂, ◌∙◌, Bool, true, false, [], ◌∷◌, ◌++◌,
  List, Option, some, arith, append_assoc, NotIn, NotIn-parts, ◌==◌, ==_iff, length, map,
  Bool-cases, inl, inr, if◌then◌else◌,
}
use mathlib.Core.List.{head-eq_of_cons-eq, tail-eq_of_cons-eq, map-append}
use garbage.RandomAccessList.Stump.{Stump}
use garbage.RandomAccessList.Stump.Laws.{first_or, Holds}
use garbage.RandomAccessList.Container.{erase}
use garbage.RandomAccessList.Container.Insertion.{contents}
use garbage.RandomAccessList.Container.Erasure.{node_apart}
use garbage.RandomAccessList.Iterators.{increment}
use garbage.RandomAccessList.Filtering.{unique_from, unique_at, unique}
use garbage.RandomAccessList.Filtering.Laws.{not_end, increment_node, Erases, erase-Erases}

module _ {ℓ} {T : Type ℓ} where
  -- What `std::list::unique` keeps after a kept `x`: each value that does not repeat the last kept.
  abbrev pub keep_changes : (T → T → Bool) → T → List T → List T
  keep_changes p x [] = []
  keep_changes p x (y ∷ ys) =
      let same = keep_changes p x ys in
      let changed = keep_changes p y ys in if p y x then same else y ∷ changed

  abbrev pub without_repeats : (T → T → Bool) → List T → List T
  without_repeats p [] = []
  without_repeats p (x ∷ xs) = x ∷ keep_changes p x xs

  unique_from-erases :
      (p : T → T → Bool) (fuel : ℕ) (st st' : Stump T) (a b next : ℕ) (x y : T)
      {result : Option (Stump T)}
      → (b == st.end) ≡ false
      → st.values b ≡ some y
      → st.values a ≡ some x
      → p y x ≡ true
      → erase st b ≡ some (st', next)
      → unique_from p fuel st' a next ≡ result
      → unique_from p (suc fuel) st a b ≡ result
  unfolding unique_from
  unique_from-erases p fuel st st' a b next x y other v w holds once rest =
      rw (other, v, w, holds, once, unique_from) rest

  unique_from-moves :
      (p : T → T → Bool) (fuel : ℕ) (st : Stump T) (a b next a' : ℕ) (x y : T)
      {result : Option (Stump T)}
      → (b == st.end) ≡ false
      → st.values b ≡ some y
      → st.values a ≡ some x
      → p y x ≡ false
      → increment st b ≡ some next
      → increment st a ≡ some a'
      → unique_from p fuel st a' next ≡ result
      → unique_from p (suc fuel) st a b ≡ result
  unfolding unique_from
  unique_from-moves p fuel st a b next a' x y other v w fails once twice rest =
      rw (other, v, w, fails, once, twice, unique_from) rest

  -- A run of the loop from `a`, whose value is `x`, over the values `vs` after it.
  pub record DropsRepeats (p : T → T → Bool) (fuel : ℕ) (st : Stump T) (pre : List ℕ) (a : ℕ)
      (rest : List ℕ) (x : T) (vs : List T) (st' : Stump T) (kept : List ℕ) : Type ℓ where
    pub runs : unique_from p fuel st a (first_or rest st.end) ≡ some st'
    pub holds : Holds st' (pre ++ a ∷ kept)
    pub values :
        contents st' (pre ++ a ∷ kept) ≡ contents st pre ++ map some (x ∷ keep_changes p x vs)

  apart_around :
      (st : Stump T) (pre : List ℕ) (a b : ℕ) (rest : List ℕ)
      → Holds st (pre ++ a ∷ [] ++ b ∷ rest)
      → NotIn b pre × NotIn b (a ∷ rest)
  apart_around st pre a b rest h =
      let apart = node_apart st (pre ++ a ∷ []) b rest h in
      let first = NotIn-parts b pre (a ∷ []) apart.0 in (first.0, (first.1.0, apart.1))

  -- A round that erases, then the rest of the run.
  drops_erased :
      (p : T → T → Bool) (fuel : ℕ) (st st' st'' : Stump T) (pre : List ℕ) (a b : ℕ) (rest : List ℕ)
      (x y : T) (vs : List T) (kept : List ℕ)
      → Holds st (pre ++ a ∷ [] ++ b ∷ rest)
      → contents st (a ∷ b ∷ rest) ≡ map some (x ∷ y ∷ vs)
      → p y x ≡ true
      → Erases st (pre ++ a ∷ []) b rest st'
      → DropsRepeats p fuel st' pre a rest x vs st'' kept
      → DropsRepeats p (suc fuel) st pre a (b ∷ rest) x (y ∷ vs) st'' kept
  drops_erased p fuel st st' st'' pre a b rest x y vs kept h c repeats d r = record {
    runs =
        unique_from-erases p fuel st st' a b (first_or rest st.end) x y
          (not_end st (pre ++ a ∷ []) b rest h) (head-eq_of_cons-eq (tail-eq_of_cons-eq c))
          (head-eq_of_cons-eq c) repeats d.runs
          (subst (λ e. unique_from p fuel st' a (first_or rest e) ≡ some st'') d.end r.runs);
    holds = r.holds;
    values = r.values ∙ ap₂ ◌++◌ (d.kept pre (apart_around st pre a b rest h).0) (rw repeats refl);
  }

  -- A round that moves both iterators on, then the rest of the run.
  drops_moved :
      (p : T → T → Bool) (fuel : ℕ) (st st' : Stump T) (pre : List ℕ) (a b : ℕ) (rest : List ℕ)
      (x y : T) (vs : List T) (kept : List ℕ)
      → Holds st (pre ++ a ∷ b ∷ rest)
      → Holds st (pre ++ a ∷ [] ++ b ∷ rest)
      → contents st (a ∷ b ∷ rest) ≡ map some (x ∷ y ∷ vs)
      → p y x ≡ false
      → DropsRepeats p fuel st (pre ++ a ∷ []) b rest y vs st' kept
      → DropsRepeats p (suc fuel) st pre a (b ∷ rest) x (y ∷ vs) st' (b ∷ kept)
  drops_moved p fuel st st' pre a b rest x y vs kept h h' c changes r = record {
    runs =
        unique_from-moves p fuel st a b (first_or rest st.end) b x y
          (not_end st (pre ++ a ∷ []) b rest h') (head-eq_of_cons-eq (tail-eq_of_cons-eq c))
          (head-eq_of_cons-eq c) changes (increment_node st (pre ++ a ∷ []) b rest h')
          (increment_node st pre a (b ∷ rest) h) r.runs;
    holds = subst (Holds st') (append_assoc pre (a ∷ []) (b ∷ kept)) r.holds;
    values =
        ap (contents st') (sym (append_assoc pre (a ∷ []) (b ∷ kept)))
        ∙ (r.values
            ∙ (ap (λ u. u ++ map some (y ∷ keep_changes p y vs)) (map-append st.values pre (a ∷ []))
                ∙ (append_assoc (contents st pre) (st.values a ∷ [])
                      (map some (y ∷ keep_changes p y vs))
                    ∙ rw (head-eq_of_cons-eq c, changes) refl)));
  }

  pub unique_from-DropsRepeats :
      (p : T → T → Bool) (fuel : ℕ) (st : Stump T) (pre : List ℕ) (a : ℕ) (rest : List ℕ) (x : T)
      (vs : List T)
      → Holds st (pre ++ a ∷ rest)
      → contents st (a ∷ rest) ≡ map some (x ∷ vs)
      → length rest < fuel
      → (st' : Stump T) × (kept : List ℕ) × DropsRepeats p fuel st pre a rest x vs st' kept
  unfolding unique_from
  unique_from-DropsRepeats p zero st pre a rest x vs h c b = absurd (omega arith)
  unique_from-DropsRepeats p (suc fuel) st pre a [] x [] h c b = (
    st,
    [],
    record {
      runs = rw ((==_iff st.end st.end).1 refl, unique_from) refl;
      holds = h;
      values = map-append st.values pre (a ∷ []) ∙ ap (λ u. contents st pre ++ u) c;
    },
  )
  unique_from-DropsRepeats p (suc fuel) st pre a [] x (y ∷ vs) h c b = cc c
  unique_from-DropsRepeats p (suc fuel) st pre a (e ∷ rest) x [] h c b = cc c
  unique_from-DropsRepeats p (suc fuel) st pre a (e ∷ rest) x (y ∷ vs) h c b =
      let h' = subst (Holds st) (sym (append_assoc pre (a ∷ []) (e ∷ rest))) h in
      elim (Bool-cases (p y x)) [
        | inl repeats ↦
            let (st', d) = erase-Erases st (pre ++ a ∷ []) e rest h' in
            let apart = apart_around st pre a e rest h' in
            let (st'', kept, r) =
              unique_from-DropsRepeats p fuel st' pre a rest x vs
                (subst (Holds st') (append_assoc pre (a ∷ []) rest) d.holds)
                (d.kept (a ∷ rest) apart.1
                  ∙ ap₂ ◌∷◌ (head-eq_of_cons-eq c) (tail-eq_of_cons-eq (tail-eq_of_cons-eq c)))
                (omega arith) in
            (st'', kept, drops_erased p fuel st st' st'' pre a e rest x y vs kept h' c repeats d r)
        | inr changes ↦
            let (st', kept, r) =
              unique_from-DropsRepeats p fuel st (pre ++ a ∷ []) e rest y vs h'
                (tail-eq_of_cons-eq c) (omega arith) in
            (st', e ∷ kept, drops_moved p fuel st st' pre a e rest x y vs kept h h' c changes r)
      ]

  unique_run :
      (p : T → T → Bool) (fuel : ℕ) (st : Stump T) (first : ℕ) {result : Option (Stump T)}
      → st.begin ≡ some first
      → unique_at p fuel st first ≡ result
      → unique p fuel st ≡ result
  unfolding unique
  unique_run p fuel st first b r = ap (λ o. o >>= unique_at p fuel st) b ∙ r

  unique_at-cons :
      (p : T → T → Bool) (fuel : ℕ) (st : Stump T) (first checked : ℕ) {result : Option (Stump T)}
      → (first == st.end) ≡ false
      → increment st first ≡ some checked
      → unique_from p fuel st first checked ≡ result
      → unique_at p fuel st first ≡ result
  unfolding unique_at
  unique_at-cons p fuel st first checked other once rest = rw (other, once, unique_at) rest

  -- In a container with the invariant of selfCheckIfConstructed, with fuel for every node: unique
  -- ends, keeps the invariant, and leaves the values of std::list's unique, each that the
  -- predicate does not relate to the last kept.
  pub unique_lem :
      (p : T → T → Bool) (fuel : ℕ) (st : Stump T) (ids : List ℕ) (vs : List T)
      → Holds st ids
      → contents st ids ≡ map some vs
      → length ids < fuel
      → (st' : Stump T) × (kept : List ℕ) × (unique p fuel st ≡ some st')
        × Holds st' kept
        × (contents st' kept ≡ map some (without_repeats p vs))
  unfolding unique_at
  unique_lem p fuel st [] [] h c b = (
    st,
    [],
    unique_run p fuel st st.end h.begins (rw ((==_iff st.end st.end).1 refl, unique_at) refl),
    h,
    refl,
  )
  unique_lem p fuel st [] (v ∷ vs) h c b = cc c
  unique_lem p fuel st (a ∷ ids) [] h c b = cc c
  unique_lem p fuel st (a ∷ ids) (v ∷ vs) h c b =
      let (st', kept, r) = unique_from-DropsRepeats p fuel st [] a ids v vs h c (omega arith) in
      (
        st',
        a ∷ kept,
        unique_run p fuel st a h.begins (
            unique_at-cons p fuel st a _ (not_end st [] a ids h) (increment_node st [] a ids h)
              r.runs),
        r.holds,
        r.values,
      )
