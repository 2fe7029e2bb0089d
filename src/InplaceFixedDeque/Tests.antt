-- ===== src/InplaceFixedDeque/Tests.antt =====
-- inplace_fixed_deque.hpp: the laws at a deque for three items that goes round.
use garbage.Prelude.{
  returns, ℕ, zero, suc, ◌<◌, ◌≡◌, refl, [], ◌∷◌, none, some, arith, ◌==◌, if◌then◌else◌, get_elem?,
}
use garbage.InplaceFixedDeque.{Deque, push_back, push_front, pop_front, assign}
use garbage.InplaceFixedDeque.Laws.{place, Models, size_internal-length}
use garbage.InplaceFixedDeque.Iterators.{size_at}
use garbage.InplaceFixedDeque.Ends.{push_back-append, push_front-prepend, pop_front-tail}
use garbage.InplaceFixedDeque.Assigning.{assign-replaces}

-- 7 in the last cell and 8 in the first.
abbrev around_two : Deque ℕ
around_two = record {
  cells = λ p. if p == 2 then some 7 else (if p == 0 then some 8 else none);
  begin = 2;
  end = 0;
}

around_two-holds : (p : ℕ) → p < 3 → around_two.cells p ≡ get_elem? (7 ∷ 8 ∷ []) (place 3 2 p)
around_two-holds zero b = refl
around_two-holds (suc zero) b = refl
around_two-holds (suc (suc zero)) b = refl
around_two-holds (suc (suc (suc p))) b = absurd (omega arith)

around_two-Models : Models 3 around_two (7 ∷ 8 ∷ [])
around_two-Models = record {
  inside = omega arith;
  fits = omega arith;
  ends = refl;
  holds = around_two-holds;
}

push_back-append_example :
    (d : Deque ℕ) × (push_back 3 around_two (some 9) ≡ some (returns d tt))
    × Models 3 d (7 ∷ 8 ∷ 9 ∷ [])
push_back-append_example =
    push_back-append 3 around_two (7 ∷ 8 ∷ []) 9 around_two-Models (omega arith)

push_front-prepend_example :
    (d : Deque ℕ) × (push_front 3 around_two (some 9) ≡ some (returns d tt))
    × Models 3 d (9 ∷ 7 ∷ 8 ∷ [])
push_front-prepend_example =
    push_front-prepend 3 around_two (7 ∷ 8 ∷ []) 9 around_two-Models (omega arith)

pop_front-tail_example : (d : Deque ℕ) × (pop_front 3 around_two ≡ some d) × Models 3 d (8 ∷ [])
pop_front-tail_example = pop_front-tail 3 around_two (7 ∷ 8 ∷ []) around_two-Models (omega arith)

assign-replaces_example :
    (d : Deque ℕ) × (assign 3 around_two (some 4 ∷ some 5 ∷ []) ≡ some (returns d tt))
    × Models 3 d (4 ∷ 5 ∷ [])
assign-replaces_example =
    assign-replaces 3 around_two (7 ∷ 8 ∷ []) (4 ∷ 5 ∷ []) around_two-Models (omega arith)

-- The deque above at every address.
abbrev everywhere : ℕ → Deque ℕ
everywhere a = around_two

two_in_deque : size_at 3 everywhere 5 ≡ 2
two_in_deque = size_internal-length 3 around_two (7 ∷ 8 ∷ []) around_two-Models
