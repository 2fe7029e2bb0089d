-- ===== src/RandomAccessList/Allocation/Gaps.antt =====
-- random_access_list.hpp: the memory of the gap nodes and of the implementation.
use garbage.Prelude.{
  ◌>>=◌, Outcome, returns, throws, update, ℕ, ◌≡◌, ◌≢◌, refl, sym, subst, ap, ◌∙◌, true, false, [],
  ◌∷◌, List, Option, none, some, arith, ◌==◌, ==_iff, Bool-cases, inl, inr, Distinct,
}
use garbage.RandomAccessList.Allocation.{
  vacant, raw, constructed, Memory, allocate, deallocate, construct, destroy,
  deallocate_node_if_raised_exception, make_empty_node, delete_empty_node, make_end,
  new_cache_and_allocator, delete_implementation, make_implementation,
}
use garbage.RandomAccessList.Allocation.Laws.{
  addresses, all_succeed, AllAre, written, unwritten, rewritten, destroy_lem, deallocate-raw,
}

construct_lem : (m : Memory) (a : ℕ) → m a ≡ raw → construct m a ≡ some (update m a constructed)
unfolding construct
construct_lem m a e = rw (e, construct) refl

-- A gap node at an address that the allocator gives.
with_gap : Memory → ℕ → Memory
with_gap m a = update (update m a raw) a constructed

make_empty_node_lem :
    (m : Memory) (a : ℕ) → make_empty_node false m (some a) ≡ some (returns (with_gap m a) a)
unfolding make_empty_node allocate deallocate_node_if_raised_exception with_gap
make_empty_node_lem m a =
    ap (λ o. o >>= (λ m''. deallocate_node_if_raised_exception false a (returns m'' tt)))
      (construct_lem (update m a raw) a (written m a raw))

-- A gap node is deleted.
delete_empty_node_lem :
    (m : Memory) (a : ℕ)
    → m a ≡ constructed
    → (m' : Memory) × (delete_empty_node m a ≡ some m')
      × (m' a ≡ vacant)
      × ((b : ℕ) → b ≢ a → m' b ≡ m b)
unfolding delete_empty_node
delete_empty_node_lem m a e = (
  update (update m a raw) a vacant,
  ap (λ o. o >>= (λ m'. deallocate m' a)) (destroy_lem m a e)
      ∙ deallocate-raw (update m a raw) a (written m a raw),
  written (update m a raw) a vacant,
  (λ b. rewritten m a b raw vacant),
)

-- Memory with a vacant address filled and emptied again.
pub emptied :
    (m m' m'' : Memory) (a : ℕ)
    → m a ≡ vacant
    → ((b : ℕ) → b ≢ a → m' b ≡ m b)
    → m'' a ≡ vacant
    → ((b : ℕ) → b ≢ a → m'' b ≡ m' b)
    → (b : ℕ) → m'' b ≡ m b
emptied m m' m'' a v k e l b = elim (Bool-cases (b == a)) [
  | inl here ↦ subst (λ x. m'' x ≡ m x) (sym ((==_iff b a).0 here)) (e ∙ sym v)
  | inr other ↦ let d : b ≢ a = ground arith in l b d ∙ k b d
]

gap_here : (m : Memory) (a : ℕ) → with_gap m a a ≡ constructed
unfolding with_gap
gap_here m a = written (update m a raw) a constructed

gap_apart : (m : Memory) (a b : ℕ) → b ≢ a → with_gap m a b ≡ m b
unfolding with_gap
gap_apart m a b d = rewritten m a b raw constructed d

-- The addresses that the allocator gives for the gap nodes.
abbrev pub gaps : Option ℕ → Option ℕ → List ℕ
gaps before_begin e = addresses ((before_begin, true) ∷ (e, true) ∷ [])

-- How the constructor of `TCacheAndAllocator` ends.
abbrev pub Unchanged {ℓ} : {R : Type ℓ} → Memory → Option (Outcome Memory R) → Type ℓ
Unchanged m o = (m' : Memory) × (o ≡ some (throws m')) × ((b : ℕ) → m' b ≡ m b)

abbrev pub HasGaps : Memory → Option ℕ → Option ℕ → Option (Outcome Memory (ℕ × ℕ)) → Type 0
HasGaps m none e o = Unchanged m o
HasGaps m (some a) none o = Unchanged m o
HasGaps m (some a) (some e) o =
    (m' : Memory) × (o ≡ some (returns m' (a, e)))
    × (m' a ≡ constructed)
    × (m' e ≡ constructed)
    × ((b : ℕ) → b ≢ a → b ≢ e → m' b ≡ m b)

-- The steps of the constructor.
begin_made :
    (m : Memory) (a : ℕ) (e : Option ℕ)
    → new_cache_and_allocator false m (some a) e ≡ make_end false (with_gap m a) a e
unfolding new_cache_and_allocator
begin_made m a e = rw (make_empty_node_lem m a) refl

end_made :
    (m : Memory) (a e : ℕ) → make_end false m a (some e) ≡ some (returns (with_gap m e) (a, e))
unfolding make_end
end_made m a e = rw (make_empty_node_lem m e) refl

end_fails :
    (m : Memory) (a : ℕ)
    → make_end false m a none ≡ (delete_empty_node m a >>= (λ m''. some (throws m'')))
unfolding make_end make_empty_node allocate
end_fails m a = refl

begin_fails : (m : Memory) (e : Option ℕ) → new_cache_and_allocator false m none e ≡ some (throws m)
unfolding new_cache_and_allocator make_empty_node allocate
begin_fails m e = refl

-- While no other exception is on its way, and for gap nodes at two free addresses, as far as the
-- allocator gives them: the constructor of TCacheAndAllocator ends with both, and no other memory
-- changed; if an allocation throws, it ends with the exception, and all memory is as it was
-- before.
pub new_cache_and_allocator-HasGaps :
    (m : Memory) (before_begin e : Option ℕ)
    → Distinct (gaps before_begin e)
    → AllAre vacant m (gaps before_begin e)
    → HasGaps m before_begin e (new_cache_and_allocator false m before_begin e)
new_cache_and_allocator-HasGaps m none e d v = (m, begin_fails m e, (λ b. refl))
new_cache_and_allocator-HasGaps m (some a) none d v =
    let (m', runs, gone, kept) = delete_empty_node_lem (with_gap m a) a (gap_here m a) in
    (
      m',
      begin_made m a none
          ∙ end_fails (with_gap m a) a
          ∙ ap (λ o. o >>= (λ m''. some (throws m''))) runs,
      emptied m (with_gap m a) m' a v.0 (gap_apart m a) gone kept,
    )
new_cache_and_allocator-HasGaps m (some a) (some e) d v = (
  with_gap (with_gap m a) e,
  begin_made m a (some e) ∙ end_made (with_gap m a) a e,
  gap_apart (with_gap m a) e a d.0.0 ∙ gap_here m a,
  gap_here (with_gap m a) e,
  (λ b n k. gap_apart (with_gap m a) e b k ∙ gap_apart m a b n),
)

-- `makeImplementation`, where it gets the memory for the object.
implementation_made :
    (m m' : Memory) (i : ℕ) (before_begin e : Option ℕ)
    → new_cache_and_allocator false (update m i raw) before_begin e ≡ some (throws m')
    → make_implementation false m (some i) before_begin e
      ≡ (delete_implementation m' i >>= (λ m''. some (throws m'')))
unfolding make_implementation allocate
implementation_made m m' i before_begin e h = rw h refl

raw-delete_implementation : (m : Memory) (i : ℕ) → m i ≡ raw → delete_implementation m i ≡ none
unfolding delete_implementation destroy
raw-delete_implementation m i e = rw (e, destroy) refl

throws_undefined :
    (m : Memory) (i : ℕ) (before_begin e : Option ℕ)
    → Unchanged (update m i raw) (new_cache_and_allocator false (update m i raw) before_begin e)
    → make_implementation false m (some i) before_begin e ≡ none
throws_undefined m i before_begin e (m', runs, same) =
    implementation_made m m' i before_begin e runs
    ∙ ap (λ o. o >>= (λ m''. some (throws m'')))
        (raw-delete_implementation m' i (same i ∙ written m i raw))

-- If the allocator gives memory for the object of makeImplementation, and then throws for one of
-- the two gap nodes, whose addresses are free and not that of the object: the deleter destroys an
-- object that was never constructed, which is undefined.
pub make_implementation_undefined :
    (m : Memory) (i : ℕ) (before_begin e : Option ℕ)
    → Distinct (i ∷ gaps before_begin e)
    → AllAre vacant m (i ∷ gaps before_begin e)
    → all_succeed ((before_begin, true) ∷ (e, true) ∷ []) ≡ false
    → make_implementation false m (some i) before_begin e ≡ none
make_implementation_undefined m i none e d v f =
    throws_undefined m i none e (update m i raw, begin_fails (update m i raw) e, (λ b. refl))
make_implementation_undefined m i (some a) none d v f = throws_undefined m i (some a) none (
    new_cache_and_allocator-HasGaps (update m i raw) (some a) none d.1
      (unwritten m i a raw (λ h. d.0.0 (sym h)) ∙ v.1.0, tt))
make_implementation_undefined m i (some a) (some e) d v f = cc
