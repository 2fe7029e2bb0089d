-- ===== src/RandomAccessList/Filtering/Laws.antt =====
-- random_access_list.hpp: what becomes of `remove_if`.
use garbage.Prelude.{
  ◌>>=◌, ℕ, zero, suc, ◌<◌, ◌≡◌, ◌≢◌, refl, sym, subst, ap, ◌∙◌, Bool, true, false, [], ◌∷◌, ◌++◌,
  List, Option, none, some, arith, NotIn, NotIn-parts, Distinct, Distinct-middle, ◌==◌, ==_iff,
  length, map, Bool-cases, inl, inr,
}
use mathlib.Core.List.{head-eq_of_cons-eq, tail-eq_of_cons-eq}
use garbage.RandomAccessList.Stump.{Stump}
use garbage.RandomAccessList.Stump.Locate.{IsNodeAt, locate_in-IsNodeAt}
use garbage.RandomAccessList.Stump.Laws.{
  first_or, rest_of, first-rest, HasNodes, Holds, forward_node,
}
use garbage.RandomAccessList.Stump.Deletion.{around_deleted, delete_and_get_next-Deletes}
use garbage.RandomAccessList.Container.{erase}
use garbage.RandomAccessList.Container.Insertion.{contents, map-update}
use garbage.RandomAccessList.Container.Erasure.{node_apart}
use garbage.RandomAccessList.Iterators.{increment}
use garbage.RandomAccessList.Filtering.{Rounds, ended, goes_round, remove_if_from, remove_if}

module _ {ℓ} {T : Type ℓ} where
  -- A node of the container is not the end node.
  pub not_end :
      (st : Stump T) (pre : List ℕ) (a : ℕ) (post : List ℕ)
      → Holds st (pre ++ a ∷ post)
      → (a == st.end) ≡ false
  not_end st pre a post h =
      let d = subst Distinct (around_deleted st.before_begin pre a post st.end) h.tree.distinct in
      let apart : a ≢ st.end =
        (NotIn-parts a post (st.end ∷ []) (Distinct-middle (st.before_begin ∷ pre) a _ d).1).1.0 in
      ground arith

  -- An iterator at a node, moved one step.
  pub increment_node :
      (st : Stump T) (pre : List ℕ) (a : ℕ) (post : List ℕ)
      → Holds st (pre ++ a ∷ post)
      → increment st a ≡ some (first_or post st.end)
  unfolding increment
  increment_node st pre a post h =
      let e = around_deleted st.before_begin pre a post st.end in
      let nodes = subst (HasNodes st.root) e h.tree in
      let (c, found, at) =
        locate_in-IsNodeAt st.root (st.before_begin ∷ pre) a (post ++ st.end ∷ []) nodes.order
          (subst Distinct (sym h.tree.order) h.tree.distinct) in
      let (d, next, item) =
        forward_node st.root (st.before_begin ∷ pre) a (first_or post st.end) (rest_of post st.end)
          c
          (subst (λ u. IsNodeAt st.root (st.before_begin ∷ pre) a u c) (first-rest post st.end)
            at) in
      rw (found, next, item) refl

  pub record Erases (st : Stump T) (pre : List ℕ) (a : ℕ) (post : List ℕ) (st' : Stump T)
      : Type ℓ where
    pub runs : erase st a ≡ some (st', first_or post st.end)
    pub holds : Holds st' (pre ++ post)
    pub kept : (xs : List ℕ) → NotIn a xs → contents st' xs ≡ contents st xs
    pub end : st'.end ≡ st.end

  pub erase-Erases :
      (st : Stump T) (pre : List ℕ) (a : ℕ) (post : List ℕ)
      → Holds st (pre ++ a ∷ post)
      → (st' : Stump T) × Erases st pre a post st'
  unfolding erase
  erase-Erases st pre a post h =
      let (st', d) = delete_and_get_next-Deletes st pre a post true h in
      (
        st',
        record {
          runs = d.runs;
          holds = d.holds;
          kept = λ xs n. ap (λ v. map v xs) d.values ∙ map-update st.values a none xs n;
          end = d.end;
        },
      )

  -- The one step that the loop has.
  remove_if_from-cons :
      (p : T → Bool) (fuel : ℕ) (st st' : Stump T) (a next : ℕ) (v : T) {result : Option (Rounds T)}
      → (a == st.end) ≡ false
      → st.values a ≡ some v
      → p v ≡ true
      → erase st a ≡ some (st', next)
      → remove_if_from p fuel st' next ≡ result
      → remove_if_from p (suc fuel) st a ≡ result
  unfolding remove_if_from
  remove_if_from-cons p fuel st st' a next v other value holds once rest =
      rw (other, value, holds, once, remove_if_from) rest

  -- The loop has not ended, no round was undefined, and the container has its invariant.
  pub record GoesRound (result : Option (Rounds T)) : Type ℓ where
    pub st : Stump T
    pub ids : List ℕ
    pub current : ℕ
    pub runs : result ≡ some (goes_round st current)
    pub holds : Holds st ids

  round :
      {result : Option (Rounds T)} (st : Stump T) (ids : List ℕ) (current : ℕ)
      → result ≡ some (goes_round st current)
      → Holds st ids
      → GoesRound result
  round st ids current e h = record { st = st; ids = ids; current = current; runs = e; holds = h }

  -- At a value to keep the loop goes round for ever.
  remove_if_from-stuck :
      (p : T → Bool) (fuel : ℕ) (st : Stump T) (a : ℕ) (v : T)
      → (a == st.end) ≡ false
      → st.values a ≡ some v
      → p v ≡ false
      → remove_if_from p fuel st a ≡ some (goes_round st a)
  unfolding remove_if_from
  remove_if_from-stuck p zero st a v other value fails = refl
  remove_if_from-stuck p (suc fuel) st a v other value fails =
      rw (other, value, fails, remove_if_from)
        (remove_if_from-stuck p fuel st a v other value fails)

  -- The loop before it is at a value to keep, and there.
  remove_if_from-rounds :
      (p : T → Bool) (fuel : ℕ) (st : Stump T) (ids : List ℕ) (us : List T) (v : T) (ws : List T)
      → Holds st ids
      → contents st ids ≡ map some (us ++ v ∷ ws)
      → p v ≡ false
      → GoesRound (remove_if_from p fuel st (first_or ids st.end))
  unfolding remove_if_from
  remove_if_from-rounds p zero st ids us v ws h c k = round st ids (first_or ids st.end) refl h
  remove_if_from-rounds p (suc fuel) st [] [] v ws h c k = cc c
  remove_if_from-rounds p (suc fuel) st [] (u ∷ us) v ws h c k = cc c
  remove_if_from-rounds p (suc fuel) st (a ∷ ids) [] v ws h c k =
      round st (a ∷ ids) a
        (remove_if_from-stuck p (suc fuel) st a v (not_end st [] a ids h) (head-eq_of_cons-eq c) k)
        h
  remove_if_from-rounds p (suc fuel) st (a ∷ ids) (u ∷ us) v ws h c k =
      let other = not_end st [] a ids h in
      elim (Bool-cases (p u)) [
        | inl passes ↦
            let (st', d) = erase-Erases st [] a ids h in
            let same = d.kept ids (node_apart st [] a ids h).1 in
            let rest =
              remove_if_from-rounds p fuel st' ids us v ws d.holds (same ∙ tail-eq_of_cons-eq c)
                k in
            subst GoesRound
              (sym (
                remove_if_from-cons p fuel st st' a (first_or ids st.end) u other
                  (head-eq_of_cons-eq c) passes d.runs refl))
              (subst (λ e. GoesRound (remove_if_from p fuel st' (first_or ids e))) d.end rest)
        | inr fails ↦
            round st (a ∷ ids) a
              (remove_if_from-stuck p (suc fuel) st a u other (head-eq_of_cons-eq c) fails) h
      ]

  -- In a container with the invariant of selfCheckIfConstructed, in which the predicate is false
  -- for some value: remove_if never ends. After any number of rounds, none of which was
  -- undefined, its loop goes on, in a container with the invariant.
  pub remove_if-GoesRound :
      (p : T → Bool) (fuel : ℕ) (st : Stump T) (ids : List ℕ) (us : List T) (v : T) (ws : List T)
      → Holds st ids
      → contents st ids ≡ map some (us ++ v ∷ ws)
      → p v ≡ false
      → (st' : Stump T) × (ids' : List ℕ) × (current : ℕ) × (remove_if p fuel st
          ≡ some (goes_round st' current))
        × Holds st' ids'
  unfolding remove_if
  remove_if-GoesRound p fuel st ids us v ws h c k =
      let r = remove_if_from-rounds p fuel st ids us v ws h c k in
      (r.st, r.ids, r.current, ap (λ o. o >>= remove_if_from p fuel st) h.begins ∙ r.runs, r.holds)

  remove_if_from-all :
      (p : T → Bool) (fuel : ℕ) (st : Stump T) (ids : List ℕ) (vs : List T)
      → Holds st ids
      → contents st ids ≡ map some vs
      → ((v : T) → p v ≡ true)
      → length ids < fuel
      → (st' : Stump T) × (remove_if_from p fuel st (first_or ids st.end) ≡ some (ended st'))
        × Holds st' []
  unfolding remove_if_from
  remove_if_from-all p zero st ids vs h c k b = absurd (omega arith)
  remove_if_from-all p (suc fuel) st [] vs h c k b =
      (st, rw ((==_iff st.end st.end).1 refl, remove_if_from) refl, h)
  remove_if_from-all p (suc fuel) st (a ∷ ids) [] h c k b = cc c
  remove_if_from-all p (suc fuel) st (a ∷ ids) (v ∷ vs) h c k b =
      let (st', d) = erase-Erases st [] a ids h in
      let same = d.kept ids (node_apart st [] a ids h).1 in
      let (st'', runs, holds) =
        remove_if_from-all p fuel st' ids vs d.holds (same ∙ tail-eq_of_cons-eq c) k
          (omega arith) in
      (
        st'',
        remove_if_from-cons p fuel st st' a _ v (not_end st [] a ids h) (head-eq_of_cons-eq c) (k v)
            d.runs
            (subst (λ e. remove_if_from p fuel st' (first_or ids e) ≡ some (ended st'')) d.end
              runs),
        holds,
      )
