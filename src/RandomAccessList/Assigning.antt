-- ===== src/RandomAccessList/Assigning.antt =====
-- random_access_list.hpp: the constructors, `assign`, `resize` and `swap` of the container. A value
-- that an operation makes comes with the address of its node, or with `none` if its constructor
-- throws.
pub mod Laws
pub mod Filling
pub mod Tests
use garbage.Prelude.{
  Outcome, returns, throws, ◌>>=◌, ℕ, zero, suc, ◌-◌, true, false, [], ◌∷◌, List, Option, none,
  some, leb,
}
use garbage.AvlTree.Nodes.{leaf}
use garbage.RandomAccessList.Stump.{Stump, reset_invariant}
use garbage.RandomAccessList.Container.{emplace_back, insert, pop_back, list_size}

module _ {ℓ} {T : Type ℓ} where
  -- What the constructor of `avl_tree_stump` starts from, with the addresses of the two gap nodes.
  abbrev pub raw_stump : ℕ → ℕ → Stump T
  raw_stump before_begin e = record {
    root = leaf;
    before_begin = before_begin;
    begin = none;
    end = e;
    values = λ n. none;
  }

  -- `makeImplementation`, and the constructor.
  unfoldable pub make_implementation : ℕ → ℕ → Option (Stump T)
  unfolding reset_invariant
  make_implementation before_begin e = reset_invariant (raw_stump before_begin e)

  -- The loop of `assign` that pushes the values to the back of `tmp`. `none` in the result: one
  -- threw.
  unfoldable pub push_all : Stump T → List (ℕ × Option T) → Option (Option (Stump T))
  unfolding emplace_back
  push_all tmp [] = some (some tmp)
  push_all tmp (made ∷ rest) = do
    o ← emplace_back tmp made
    elim o [ returns tmp' it ↦ push_all tmp' rest | throws tmp' ↦ some none ]

  -- `assign`: the values go to `tmp`, which is then swapped with this container. An exception
  -- leaves before the swap.
  unfoldable pub assign :
      Stump T → ℕ → ℕ → List (ℕ × Option T) → Option (Outcome (Stump T) (Unit {0}))
  unfolding make_implementation push_all
  assign st before_begin e made = do
    tmp ← make_implementation before_begin e
    o ← push_all tmp made
    elim o [ none ↦ some (throws st) | some tmp' ↦ some (returns tmp' tt) ]

  -- The loop of `resize` that pops.
  unfoldable pub pop_backs : ℕ → Stump T → Option (Stump T)
  unfolding pop_back
  pop_backs zero st = some st
  pop_backs (suc going_to_delete) st = do (st', it) ← pop_back st; pop_backs going_to_delete st'

  abbrev pub ignore_result : Outcome (Stump T) ℕ → Outcome (Stump T) (Unit {0})
  ignore_result (returns st it) = returns st tt
  ignore_result (throws st) = throws st

  -- `resize`, where `make n` is what making n nodes gives.
  unfoldable pub resize :
      Stump T → ℕ → (ℕ → List (ℕ × Option T)) → Option (Outcome (Stump T) (Unit {0}))
  unfolding list_size insert pop_backs
  resize st count make = elim (leb (list_size st) count) [
    | true ↦ do
      first ← st.begin
      o ← insert st first (make (count - list_size st))
      some (ignore_result o)
    | false ↦ do st' ← pop_backs (list_size st - count) st; some (returns st' tt)
  ]

  unfoldable pub swap : Stump T × Stump T → Stump T × Stump T
  swap (st, other) = (other, st)
