-- ===== src/RandomAccessList/Allocation/Unwinding.antt =====
-- random_access_list.hpp: what becomes of new nodes while another exception is on its way.
use garbage.Prelude.{
  ◌>>=◌, returns, throws, update, ℕ, ◌≡◌, ◌≢◌, refl, ap, ◌∙◌, Bool, true, false, [], ◌∷◌, ◌++◌,
  List, Option, none, some, arith, ◌==◌, ◌⊎◌, Bool-cases, if◌then◌else◌, inl, inr,
}
use garbage.RandomAccessList.Allocation.{
  vacant, raw, valued, Memory, allocate, deallocate, destruct_value, delete_node, clear_and_dispose,
  make_node, construct_nodes, deallocate_node_if_raised_exception,
}
use garbage.RandomAccessList.Allocation.Laws.{
  written, unwritten, rewritten, deallocate-raw, construct_with_value_lem,
}

-- While an exception is on its way, every node that `makeNode` makes is freed at once.
deallocate_valued : (m : Memory) (a : ℕ) → m a ≡ valued → deallocate m a ≡ some (update m a vacant)
unfolding deallocate
deallocate_valued m a e = rw (e, deallocate) refl

make_node_unwinding :
    (m : Memory) (a : ℕ) (succeeds : Bool)
    → make_node true m (some a, succeeds)
      ≡ some (
          if succeeds
          then returns (update (update (update m a raw) a valued) a vacant) a
          else throws (update (update m a raw) a vacant))
unfolding make_node allocate deallocate_node_if_raised_exception
make_node_unwinding m a true =
    ap (λ o. o >>= deallocate_node_if_raised_exception true a)
      (construct_with_value_lem (update m a raw) a true (written m a raw))
    ∙ ap (λ o. o >>= (λ m'. some (returns m' a)))
        (deallocate_valued (update (update m a raw) a valued) a (written (update m a raw) a valued))
make_node_unwinding m a false =
    ap (λ o. o >>= deallocate_node_if_raised_exception true a)
      (construct_with_value_lem (update m a raw) a false (written m a raw))
    ∙ ap (λ o. o >>= (λ m'. some (throws m'))) (deallocate-raw (update m a raw) a (written m a raw))

-- An address that is vacant stays so if another or the same is freed.
stays_vacant :
    (m m' : Memory) (a b : ℕ) → m a ≡ vacant → (a ≢ b → m' a ≡ m a) → update m' b vacant a ≡ vacant
stays_vacant m m' a b v k = elim (Bool-cases (a == b)) [
  | inl here ↦ rw here refl
  | inr other ↦ let d : a ≢ b = ground arith in rw other (k d ∙ v)
]

none_fails : (m : Memory) (succeeds : Bool) → make_node true m (none, succeeds) ≡ some (throws m)
unfolding make_node allocate
none_fails m succeeds = refl

Freed : Memory → Option ℕ × Bool → ℕ → Type 0
Freed m t a =
    (m' : Memory) × (m' a ≡ vacant)
    × ((make_node true m t ≡ some (throws m'))
        ⊎ ((b : ℕ) × (make_node true m t ≡ some (returns m' b))))

make_node-Freed : (m : Memory) (t : Option ℕ × Bool) (a : ℕ) → m a ≡ vacant → Freed m t a
unfolding Freed
make_node-Freed m (none, succeeds) a v = (m, v, inl (none_fails m succeeds))
make_node-Freed m (some b, true) a v = (
  update (update (update m b raw) b valued) b vacant,
  stays_vacant m (update (update m b raw) b valued) a b v (rewritten m b a raw valued),
  inr (b, make_node_unwinding m b true),
)
make_node-Freed m (some b, false) a v = (
  update (update m b raw) b vacant,
  stays_vacant m (update m b raw) a b v (unwritten m b a raw),
  inl (make_node_unwinding m b false),
)

vacant-clear_and_dispose :
    (m : Memory) (a : ℕ) (nodes : List ℕ) → m a ≡ vacant → clear_and_dispose m (a ∷ nodes) ≡ none
unfolding clear_and_dispose delete_node destruct_value
vacant-clear_and_dispose m a nodes v = rw (v, delete_node, destruct_value) refl

-- The loop goes on with a node that is freed.
round_returns :
    (m m' : Memory) (t : Option ℕ × Bool) (b : ℕ) (rest : List (Option ℕ × Bool)) (nodes : List ℕ)
    → make_node true m t ≡ some (returns m' b)
    → construct_nodes true m (t ∷ rest) nodes ≡ construct_nodes true m' rest (nodes ++ b ∷ [])
unfolding construct_nodes
round_returns m m' t b rest nodes e = rw e refl

round_throws :
    (m m' : Memory) (t : Option ℕ × Bool) (rest : List (Option ℕ × Bool)) (nodes : List ℕ)
    → make_node true m t ≡ some (throws m')
    → construct_nodes true m (t ∷ rest) nodes
      ≡ (clear_and_dispose m' nodes >>= (λ m''. some (throws m'')))
unfolding construct_nodes
round_throws m m' t rest nodes e = rw e refl

no_round :
    (m : Memory) (nodes : List ℕ)
    → construct_nodes true m [] nodes ≡ (clear_and_dispose m nodes >>= (λ m'. some (returns m' [])))
unfolding construct_nodes
no_round m nodes = refl

undefined_from :
    (rest : List (Option ℕ × Bool)) (m : Memory) (a : ℕ) (nodes : List ℕ)
    → m a ≡ vacant
    → construct_nodes true m rest (a ∷ nodes) ≡ none
unfolding Freed
undefined_from [] m a nodes v =
    no_round m (a ∷ nodes)
    ∙ ap (λ o. o >>= (λ m'. some (returns m' []))) (vacant-clear_and_dispose m a nodes v)
undefined_from (t ∷ rest) m a nodes v =
    let (m', gone, ends) = make_node-Freed m t a v in
    elim ends [
      | inl e ↦
          round_throws m m' t rest (a ∷ nodes) e
          ∙ ap (λ o. o >>= (λ m''. some (throws m''))) (vacant-clear_and_dispose m' a nodes gone)
      | inr found ↦
          round_returns m m' t found.0 rest (a ∷ nodes) found.1
          ∙ undefined_from rest m' a (nodes ++ found.0 ∷ []) gone
    ]

-- While an exception is on its way, an insert of at least one node, whose constructor succeeds,
-- disposes of a node that is freed already, which is undefined.
pub construct_nodes_undefined :
    (m : Memory) (a : ℕ) (rest : List (Option ℕ × Bool))
    → construct_nodes true m ((some a, true) ∷ rest) [] ≡ none
construct_nodes_undefined m a rest =
    round_returns m _ (some a, true) a rest [] (make_node_unwinding m a true)
    ∙ undefined_from rest _ a [] (written (update (update m a raw) a valued) a vacant)
