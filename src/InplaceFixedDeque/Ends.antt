-- ===== src/InplaceFixedDeque/Ends.antt =====
-- inplace_fixed_deque.hpp: the pushes and the pops at both ends do to the sequence of values what
-- their names say. None constructs over a value or destroys raw memory.
use garbage.Prelude.{
  Option, ◌>>=◌, update, returns, ℕ, suc, ◌+◌, ◌<◌, ◌≤◌, ◌≡◌, refl, sym, ap, ◌∙◌, false, [], ◌∷◌,
  ◌++◌, List, none, some, if◌then◌else◌, ◌==◌, length, arith, get_elem?, get_elem?_beyond,
  get_elem?_within, get_elem?-snoc, length-append, drop_last, length-drop_last, get_elem?-drop_last,
  tail, length-tail, get_elem?-tail, Bool-cases, inl, inr,
}
use garbage.ContainersUtility.Laws.{IsLive, construct_value-raw, destroy_value-live}
use garbage.InplaceFixedDeque.{
  Deque, full, empty, construct_at_position, destroy_by_position, end_after_push_back,
  creation_position, push_back, begin_after_push_front, end_after_push_front, push_front,
  end_after_pop_back, destruction_position, pop_back, begin_after_pop_front, end_after_pop_front,
  pop_front,
}
use garbage.InplaceFixedDeque.Laws.{place, Models, full_iff, empty_iff}

module _ {ℓ} {T : Type ℓ} where
  construct_at_position-raw :
      (capacity : ℕ) (d : Deque T) (p : ℕ) (v : T)
      → p < capacity
      → d.cells p ≡ none
      → construct_at_position capacity d p v ≡ some (record d { cells = update d.cells p (some v) })
  unfolding construct_at_position
  construct_at_position-raw capacity d p v b raw =
      ap (λ o. o >>= λ c. some (record d { cells = c }))
        (construct_value-raw capacity d.cells p v b raw)

  destroy_by_position-live :
      (capacity : ℕ) (d : Deque T) (p : ℕ)
      → p < capacity
      → IsLive d.cells p
      → destroy_by_position capacity d p ≡ some (record d { cells = update d.cells p none })
  unfolding destroy_by_position
  destroy_by_position-live capacity d p b live =
      ap (λ o. o >>= λ c. some (record d { cells = c }))
        (destroy_value-live capacity d.cells p b live)

  -- push_back, with a value that is made, into a deque with room appends the value to the
  -- sequence that the deque holds, round the end of the array as well, and constructs in raw
  -- memory.
  pub push_back-append :
      (capacity : ℕ) (d : Deque T) (xs : List T) (v : T)
      → Models capacity d xs
      → length xs < capacity
      → (d' : Deque T) × (push_back capacity d (some v) ≡ some (returns d' tt))
        × Models capacity d' (xs ++ v ∷ [])
  unfolding push_back creation_position end_after_push_back
  push_back-append capacity d xs v m room =
      let e = m.ends in
      let i = m.inside in
      let position = creation_position capacity d in
      let not_full : full capacity d ≡ false = full_iff capacity d xs m ∙ ground arith in
      let b : position < capacity = ground arith in
      let at : place capacity d.begin position ≡ length xs = ground arith in
      let raw : d.cells position ≡ none =
        m.holds position b
        ∙ (ap (get_elem? xs) at ∙ get_elem?_beyond xs (length xs) (omega arith)) in
      let longer = length-append xs (v ∷ []) in
      (
        record {
          cells = update d.cells position (some v);
          begin = d.begin;
          end = end_after_push_back capacity d;
        },
        rw (not_full, construct_at_position-raw capacity d position v b raw, push_back) refl,
        record {
          inside = i;
          fits = omega (arith, longer);
          ends = rw longer (ground arith);
          holds = λ p k.
              let same : (p == position) ≡ (place capacity d.begin p == length xs) = ground arith in
              ap (λ b. if b then some v else d.cells p) same
              ∙ (ap (λ o. if place capacity d.begin p == length xs then some v else o) (m.holds p k)
                  ∙ sym (get_elem?-snoc xs v (place capacity d.begin p)));
        },
      )

  -- push_front, with a value that is made, into a deque with room prepends the value to the
  -- sequence that the deque holds, round the start of the array as well, and constructs in raw
  -- memory.
  pub push_front-prepend :
      (capacity : ℕ) (d : Deque T) (xs : List T) (v : T)
      → Models capacity d xs
      → length xs < capacity
      → (d' : Deque T) × (push_front capacity d (some v) ≡ some (returns d' tt))
        × Models capacity d' (v ∷ xs)
  unfolding push_front begin_after_push_front end_after_push_front
  push_front-prepend capacity d xs v m room =
      let e = m.ends in
      let i = m.inside in
      let position = begin_after_push_front capacity d in
      let not_full : full capacity d ≡ false = full_iff capacity d xs m ∙ ground arith in
      let b : position < capacity = ground arith in
      let at : length xs ≤ place capacity d.begin position = ground arith in
      let raw : d.cells position ≡ none = m.holds position b ∙ get_elem?_beyond xs _ at in
      (
        record {
          cells = update d.cells position (some v);
          begin = position;
          end = end_after_push_front capacity d;
        },
        rw (not_full, construct_at_position-raw capacity d position v b raw, push_front) refl,
        record {
          inside = b;
          fits = room;
          ends = ground arith;
          holds = λ p k. elim (Bool-cases (p == position)) [
            | inl here ↦
                let first : place capacity position p ≡ 0 = ground arith in rw (here, first) refl
            | inr other ↦
                let later : place capacity position p ≡ suc (place capacity d.begin p) =
                  ground arith in
                rw (other, later) (m.holds p k)
          ];
        },
      )

  -- A cell after the last value's cell was made raw.
  drop_last_cell :
      (xs : List T) (cells : ℕ → Option T) (position index p : ℕ)
      → (p == position) ≡ (index + 1 == length xs)
      → cells p ≡ get_elem? xs index
      → update cells position none p ≡ get_elem? (drop_last xs) index
  drop_last_cell xs cells position index p same held =
      ap (λ b. if b then none else cells p) same
      ∙ (ap (λ o. if index + 1 == length xs then none else o) held
          ∙ sym (get_elem?-drop_last xs index))

  -- pop_back of a deque that holds a sequence with a value destroys exactly the last one and
  -- leaves a deque of the others.
  pub pop_back-drop_last :
      (capacity : ℕ) (d : Deque T) (xs : List T)
      → Models capacity d xs
      → 0 < length xs
      → (d' : Deque T) × (pop_back capacity d ≡ some d') × Models capacity d' (drop_last xs)
  unfolding pop_back destruction_position end_after_pop_back
  pop_back-drop_last capacity d xs m some_value =
      let e = m.ends in
      let i = m.inside in
      let f = m.fits in
      let position = destruction_position capacity d in
      let not_empty : empty capacity d ≡ false = empty_iff capacity d xs m ∙ ground arith in
      let b : position < capacity = ground arith in
      let at : place capacity d.begin position + 1 ≡ length xs = ground arith in
      let live = get_elem?_within xs (place capacity d.begin position) (omega arith) in
      let shorter = length-drop_last xs in
      (
        record {
          cells = update d.cells position none;
          begin = d.begin;
          end = end_after_pop_back capacity d;
        },
        rw (not_empty, pop_back)
            (destroy_by_position-live capacity (record d { end = end_after_pop_back capacity d })
              position b (live.0, m.holds position b ∙ live.1)),
        record {
          inside = i;
          fits = omega (arith, shorter);
          ends = rw shorter (ground arith);
          holds = λ p k.
              drop_last_cell xs d.cells position (place capacity d.begin p) p (ground arith)
                (m.holds p k);
        },
      )

  -- pop_front of a deque that holds a sequence with a value destroys exactly the first one and
  -- leaves a deque of the others.
  pub pop_front-tail :
      (capacity : ℕ) (d : Deque T) (xs : List T)
      → Models capacity d xs
      → 0 < length xs
      → (d' : Deque T) × (pop_front capacity d ≡ some d') × Models capacity d' (tail xs)
  unfolding pop_front begin_after_pop_front end_after_pop_front
  pop_front-tail capacity d xs m some_value =
      let e = m.ends in
      let i = m.inside in
      let f = m.fits in
      let begin = begin_after_pop_front capacity d in
      let not_empty : empty capacity d ≡ false = empty_iff capacity d xs m ∙ ground arith in
      let first : place capacity d.begin d.begin ≡ 0 = ground arith in
      let live = get_elem?_within xs (place capacity d.begin d.begin) (omega arith) in
      let shorter = length-tail xs in
      (
        record {
          cells = update d.cells d.begin none;
          begin = begin;
          end = end_after_pop_front capacity d;
        },
        rw (not_empty, pop_front)
            (destroy_by_position-live capacity
              (record d { begin = begin; end = end_after_pop_front capacity d }) d.begin i
              (live.0, m.holds d.begin i ∙ live.1)),
        record {
          inside = ground arith;
          fits = omega (arith, shorter);
          ends = rw shorter (ground arith);
          holds = λ p k. elim (Bool-cases (p == d.begin)) [
            | inl here ↦
                let last : length (tail xs) ≤ place capacity begin p = rw shorter (ground arith) in
                rw here (sym (get_elem?_beyond (tail xs) _ last))
            | inr other ↦
                let earlier : place capacity d.begin p ≡ suc (place capacity begin p) =
                  ground arith in
                rw other (
                  m.holds p k
                  ∙ (ap (get_elem? xs) earlier ∙ sym (get_elem?-tail xs (place capacity begin p))))
          ];
        },
      )
