-- ===== src/RandomAccessList/Allocation/Laws.antt =====
-- random_access_list.hpp: the memory of the nodes that `insert` makes before it links them.
use garbage.Prelude.{
  ◌>>=◌, Outcome, returns, throws, update, ℕ, ◌≡◌, ◌≢◌, refl, sym, subst, ap, ◌∙◌, Bool, true,
  false, [], ◌∷◌, ◌++◌, List, Option, none, some, arith, ◌==◌, ==_iff, Bool-cases, if◌then◌else◌,
  inl, inr, NotIn, Distinct, NotIn-parts, Distinct-middle, Distinct-prefix, append-nil,
  append_assoc,
}
use garbage.RandomAccessList.Allocation.{
  Cell, vacant, raw, constructed, valued, Memory, allocate, deallocate, construct_with_value,
  destruct_value, destroy, delete_node, deallocate_node_if_raised_exception, clear_and_dispose,
  make_node, construct_nodes,
}

-- A write, read at the address and elsewhere.
pub written : (m : Memory) (a : ℕ) (c : Cell) → update m a c a ≡ c
written m a c = rw ((==_iff a a).1 refl) refl

pub unwritten : (m : Memory) (a b : ℕ) (c : Cell) → b ≢ a → update m a c b ≡ m b
unwritten m a b c d = elim (Bool-cases (b == a)) [
  | inl here ↦ absurd (d ((==_iff b a).0 here))
  | inr other ↦ rw other refl
]

abbrev pub AllAre : Cell → Memory → List ℕ → Type 0
AllAre c m [] = Unit
AllAre c m (a ∷ nodes) = (m a ≡ c) × AllAre c m nodes

-- What the memory is after the nodes `nodes` were made in `m`.
pub record Made (m m' : Memory) (nodes : List ℕ) : Type 0 where
  pub apart : (b : ℕ) → NotIn b nodes → m' b ≡ m b
  pub alive : AllAre valued m' nodes
  pub vacant_before : AllAre vacant m nodes
  pub distinct : Distinct nodes

-- What each of the allocator's traits does where it is defined.
pub destruct_value_lem :
    (m : Memory) (a : ℕ) → m a ≡ valued → destruct_value m a ≡ some (update m a constructed)
unfolding destruct_value
destruct_value_lem m a e = rw (e, destruct_value) refl

pub destroy_lem : (m : Memory) (a : ℕ) → m a ≡ constructed → destroy m a ≡ some (update m a raw)
unfolding destroy
destroy_lem m a e = rw (e, destroy) refl

pub deallocate-raw : (m : Memory) (a : ℕ) → m a ≡ raw → deallocate m a ≡ some (update m a vacant)
unfolding deallocate
deallocate-raw m a e = rw (e, deallocate) refl

pub construct_with_value_lem :
    (m : Memory) (a : ℕ) (succeeds : Bool)
    → m a ≡ raw
    → construct_with_value m a succeeds
      ≡ some (if succeeds then returns (update m a valued) tt else throws m)
unfolding construct_with_value
construct_with_value_lem m a succeeds e = rw (e, construct_with_value) refl

delete_node_lem :
    (m : Memory) (a : ℕ)
    → m a ≡ valued
    → (m' : Memory) × (delete_node m a ≡ some m') × (m' a ≡ vacant) × ((b : ℕ) → b ≢ a → m' b ≡ m b)
unfolding delete_node
delete_node_lem m a e = (
  update (update (update m a constructed) a raw) a vacant,
  ap (λ o. o >>= (λ m'. destroy m' a >>= (λ m''. deallocate m'' a))) (destruct_value_lem m a e)
      ∙ ap (λ o. o >>= (λ m''. deallocate m'' a))
          (destroy_lem (update m a constructed) a (written m a constructed))
      ∙ deallocate-raw (update (update m a constructed) a raw) a
          (written (update m a constructed) a raw),
  written (update (update m a constructed) a raw) a vacant,
  (λ b d.
      unwritten (update (update m a constructed) a raw) a b vacant d
      ∙ unwritten (update m a constructed) a b raw d
      ∙ unwritten m a b constructed d),
)

-- The nodes of a list apart from those before it.
AllAre-kept :
    (c : Cell) (m m' : Memory) (a : ℕ) (nodes : List ℕ)
    → ((b : ℕ) → b ≢ a → m' b ≡ m b)
    → NotIn a nodes
    → AllAre c m nodes
    → AllAre c m' nodes
AllAre-kept c m m' a [] k n all = tt
AllAre-kept c m m' a (b ∷ nodes) k n all =
    (k b (λ e. n.0 (sym e)) ∙ all.0, AllAre-kept c m m' a nodes k n.1 all.1)

-- The nodes that were made are disposed of, and the memory is as before.
pub clear_and_dispose_lem :
    (m m' : Memory) (nodes : List ℕ)
    → Made m m' nodes
    → (m'' : Memory) × (clear_and_dispose m' nodes ≡ some m'') × ((b : ℕ) → m'' b ≡ m b)
unfolding clear_and_dispose
clear_and_dispose_lem m m' [] h = (m', refl, (λ b. h.apart b tt))
clear_and_dispose_lem m m' (a ∷ nodes) h =
    let (m1, runs, gone, kept) = delete_node_lem m' a h.alive.0 in
    let (m2, rest, same) = clear_and_dispose_lem m m1 nodes (record {
      apart = λ b n. elim (Bool-cases (b == a)) [
        | inl here ↦
            subst (λ x. m1 x ≡ m x) (sym ((==_iff b a).0 here)) (gone ∙ sym h.vacant_before.0)
        | inr other ↦ let d : b ≢ a = ground arith in kept b d ∙ h.apart b (d, n)
      ];
      alive = AllAre-kept valued m' m1 a nodes kept h.distinct.0 h.alive.1;
      vacant_before = h.vacant_before.1;
      distinct = h.distinct.1;
    }) in
    (m2, ap (λ o. o >>= (λ m'. clear_and_dispose m' nodes)) runs ∙ rest, same)

-- The addresses that the allocator gives.
abbrev pub addresses : List (Option ℕ × Bool) → List ℕ
addresses [] = []
addresses ((none, succeeds) ∷ made) = addresses made
addresses ((some a, succeeds) ∷ made) = a ∷ addresses made

-- Neither the allocator nor a constructor throws.
abbrev pub all_succeed : List (Option ℕ × Bool) → Bool
all_succeed [] = true
all_succeed ((none, succeeds) ∷ made) = false
all_succeed ((some a, true) ∷ made) = all_succeed made
all_succeed ((some a, false) ∷ made) = false

AllAre-snoc :
    (c : Cell) (m : Memory) (nodes : List ℕ) (a : ℕ)
    → AllAre c m nodes
    → m a ≡ c
    → AllAre c m (nodes ++ a ∷ [])
AllAre-snoc c m [] a all e = (e, tt)
AllAre-snoc c m (b ∷ nodes) a all e = (all.0, AllAre-snoc c m nodes a all.1 e)

-- What is written at an address that is written again.
pub rewritten : (m : Memory) (a b : ℕ) (c d : Cell) → b ≢ a → update (update m a c) a d b ≡ m b
rewritten m a b c d n = unwritten (update m a c) a b d n ∙ unwritten m a b c n

-- A node more is made.
Made-more :
    (m m' : Memory) (nodes : List ℕ) (a : ℕ)
    → Made m m' nodes
    → NotIn a nodes
    → m a ≡ vacant
    → Distinct (nodes ++ a ∷ [])
    → Made m (update (update m' a raw) a valued) (nodes ++ a ∷ [])
Made-more m m' nodes a h n v d = record {
  apart = λ b k.
      let (outside, other) = NotIn-parts b nodes (a ∷ []) k in
      rewritten m' a b raw valued other.0 ∙ h.apart b outside;
  alive =
      AllAre-snoc valued _ nodes a
        (AllAre-kept valued m' _ a nodes (λ b. rewritten m' a b raw valued) n h.alive)
        (written (update m' a raw) a valued);
  vacant_before = AllAre-snoc vacant m nodes a h.vacant_before v;
  distinct = d;
}

-- A node is not made after all.
Made-none :
    (m m' : Memory) (nodes : List ℕ) (a : ℕ)
    → Made m m' nodes
    → NotIn a nodes
    → m a ≡ vacant
    → Made m (update (update m' a raw) a vacant) nodes
Made-none m m' nodes a h n v = record {
  apart = λ b k. elim (Bool-cases (b == a)) [
    | inl here ↦
        subst (λ x. update (update m' a raw) a vacant x ≡ m x) (sym ((==_iff b a).0 here))
          (written (update m' a raw) a vacant ∙ sym v)
    | inr other ↦ let d : b ≢ a = ground arith in rewritten m' a b raw vacant d ∙ h.apart b k
  ];
  alive = AllAre-kept valued m' _ a nodes (λ b. rewritten m' a b raw vacant) n h.alive;
  vacant_before = h.vacant_before;
  distinct = h.distinct;
}

-- How `makeNode` ends at an address that the allocator gives.
pub make_node_lem :
    (m : Memory) (a : ℕ) (succeeds : Bool)
    → make_node false m (some a, succeeds)
      ≡ some (
          if succeeds
          then returns (update (update m a raw) a valued) a
          else throws (update (update m a raw) a vacant))
unfolding make_node allocate deallocate_node_if_raised_exception
make_node_lem m a true =
    ap (λ o. o >>= deallocate_node_if_raised_exception false a)
      (construct_with_value_lem (update m a raw) a true (written m a raw))
make_node_lem m a false =
    ap (λ o. o >>= deallocate_node_if_raised_exception false a)
      (construct_with_value_lem (update m a raw) a false (written m a raw))
    ∙ ap (λ o. o >>= (λ m'. some (throws m'))) (deallocate-raw (update m a raw) a (written m a raw))

make_none : (m : Memory) (succeeds : Bool) → make_node false m (none, succeeds) ≡ some (throws m)
unfolding make_node allocate
make_none m succeeds = refl

-- How the loop ends.
pub Ends : Memory → List ℕ → Bool → Option (Outcome Memory (List ℕ)) → Type 0
Ends m nodes true o = (m' : Memory) × (o ≡ some (returns m' nodes)) × Made m m' nodes
Ends m nodes false o = (m' : Memory) × (o ≡ some (throws m')) × ((b : ℕ) → m' b ≡ m b)

-- The nodes made so far are disposed of after an exception.
disposes :
    (m m' : Memory) (nodes all : List ℕ)
    → Made m m' nodes
    → Ends m all false (clear_and_dispose m' nodes >>= (λ m''. some (throws m'')))
unfolding Ends
disposes m m' nodes all h =
    let (m'', runs, same) = clear_and_dispose_lem m m' nodes h in
    (m'', ap (λ o. o >>= (λ m''. some (throws m''))) runs, same)

-- One round of the loop.
construct_made :
    (m m' : Memory) (t : Option ℕ × Bool) (a : ℕ) (rest : List (Option ℕ × Bool)) (nodes : List ℕ)
    → make_node false m t ≡ some (returns m' a)
    → construct_nodes false m (t ∷ rest) nodes ≡ construct_nodes false m' rest (nodes ++ a ∷ [])
unfolding construct_nodes
construct_made m m' t a rest nodes e = rw e refl

construct_none :
    (m m' : Memory) (t : Option ℕ × Bool) (rest : List (Option ℕ × Bool)) (nodes : List ℕ)
    → make_node false m t ≡ some (throws m')
    → construct_nodes false m (t ∷ rest) nodes
      ≡ (clear_and_dispose m' nodes >>= (λ m''. some (throws m'')))
unfolding construct_nodes
construct_none m m' t rest nodes e = rw e refl

no_more :
    (m m' : Memory) (nodes : List ℕ)
    → Made m m' nodes
    → Ends m nodes true (construct_nodes false m' [] nodes)
unfolding Ends construct_nodes
no_more m m' nodes h = (m', refl, h)

construct_nodes_from :
    (m m' : Memory) (made : List (Option ℕ × Bool)) (nodes : List ℕ)
    → Made m m' nodes
    → Distinct (nodes ++ addresses made)
    → AllAre vacant m (addresses made)
    → Ends m (nodes ++ addresses made) (all_succeed made) (construct_nodes false m' made nodes)
construct_nodes_from m m' [] nodes h d v =
    subst (λ u. Ends m u true (construct_nodes false m' [] nodes)) (sym (append-nil nodes))
      (no_more m m' nodes h)
construct_nodes_from m m' ((none, succeeds) ∷ rest) nodes h d v =
    subst (Ends m _ false)
      (sym (construct_none m' m' (none, succeeds) rest nodes (make_none m' succeeds)))
      (disposes m m' nodes _ h)
construct_nodes_from m m' ((some a, true) ∷ rest) nodes h d v =
    let split = append_assoc nodes (a ∷ []) (addresses rest) in
    let distinct = subst Distinct (sym split) d in
    let fresh = Distinct-middle nodes a (addresses rest) d in
    subst (Ends m _ (all_succeed rest))
      (sym (construct_made m' _ (some a, true) a rest nodes (make_node_lem m' a true)))
      (subst
        (λ u.
          Ends m u (all_succeed rest)
            (construct_nodes false (update (update m' a raw) a valued) rest (nodes ++ a ∷ [])))
        split
        (construct_nodes_from m (update (update m' a raw) a valued) rest (nodes ++ a ∷ [])
          (Made-more m m' nodes a h fresh.0 v.0 (Distinct-prefix (nodes ++ a ∷ []) _ distinct))
          distinct v.1))
construct_nodes_from m m' ((some a, false) ∷ rest) nodes h d v =
    let fresh = Distinct-middle nodes a (addresses rest) d in
    subst (Ends m _ false)
      (sym (construct_none m' _ (some a, false) rest nodes (make_node_lem m' a false)))
      (disposes m _ nodes _ (Made-none m m' nodes a h fresh.0 v.0))

-- While no other exception is on its way, and for addresses that are free and given once: if
-- neither the allocator nor a constructor throws, the loop of insert ends with the nodes at these
-- addresses, each with its value, and no other memory changed; otherwise it ends with the
-- exception, and all memory is as it was before.
pub construct_nodes-Ends :
    (m : Memory) (made : List (Option ℕ × Bool))
    → Distinct (addresses made)
    → AllAre vacant m (addresses made)
    → Ends m (addresses made) (all_succeed made) (construct_nodes false m made [])
construct_nodes-Ends m made d v =
    construct_nodes_from m m made []
      (record { apart = λ b n. refl; alive = tt; vacant_before = tt; distinct = tt }) d v
