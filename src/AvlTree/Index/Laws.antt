-- ===== src/AvlTree/Index/Laws.antt =====
-- In a measured tree `getIndex` and `getByIndex` count the nodes before a node.
use garbage.Prelude.{
  ℕ, ◌+◌, ◌-◌, false, true, Option, add_size, leb, ◌%◌, ◌≤◌, ◌<◌, ◌≡◌, refl, ap₂, sub_size, ◌∙◌,
  subst, [], ◌∷◌, ◌++◌, none, some, arith, length, length-append, size_mod, inl, inr, Bool-cases,
  ltb,
}
use garbage.AvlTree.Nodes.{
  Tree, leaf, node, left_of, right_of, Parents, Cursor, cursor_at, subtree, plug, to_list,
  before_parents, before,
}
use garbage.AvlTree.Balance.Caches.{
  IsMeasured, real_size, real_size-plug, real_size-length, size-eq,
}
use garbage.AvlTree.Balance.{size}
use garbage.AvlTree.Edit.Caches.{IsMeasured-plug}
use garbage.AvlTree.Walk.Laws.{root}
use garbage.AvlTree.Index.{
  left_subtree_size, right_subtree_size, left_path_size, right_path_size, get_index_from, get_index,
  get_by_index_from, get_by_index, distance,
}

module _ {ℓ} {A : Type ℓ} where
  -- The number of nodes before the node at the top of `t`.
  abbrev index_of : Tree A → Parents A → ℕ
  index_of leaf fs = 0
  index_of (node x h s l r) fs = length (before_parents fs) + real_size l

  get_index_from-eq :
      (x : A) (h s : ℕ) (l r : Tree A) (fs : Parents A) (acc : ℕ)
      → IsMeasured (node x h s l r)
      → IsMeasured (plug (node x h s l r) fs)
      → real_size (plug (node x h s l r) fs) < size_mod
      → acc < size_mod
      → get_index_from (node x h s l r) fs acc
        ≡ (index_of (node x h s l r) fs + size_mod - acc) % size_mod
  unfolding get_index_from left_subtree_size left_path_size right_path_size right_subtree_size
  get_index_from-eq x h s l r [] acc m k b a = omega (arith, size-eq l m.2)
  get_index_from-eq x h s l r (left_of px ph ps pr ∷ fs) acc m k b a =
      let t = node x h s l r in
      let up = IsMeasured-plug (node px ph ps t pr) fs k in
      get_index_from-eq px ph ps t pr fs _ up.0 k b (omega arith)
      ∙ omega (arith, size-eq l m.2, m.1, real_size-plug (node px ph ps t pr) fs)
  get_index_from-eq x h s l r (right_of px ph ps pl ∷ fs) acc m k b a =
      let t = node x h s l r in
      let up = IsMeasured-plug (node px ph ps pl t) fs k in
      get_index_from-eq px ph ps pl t fs _ up.0 k b (omega arith)
      ∙ omega (
        arith,
        size-eq l m.2,
        m.1,
        size-eq pl up.0.2,
        up.0.1,
        real_size-plug (node px ph ps pl t) fs,
        real_size-length pl,
        length-append (before_parents fs) (to_list pl),
        length-append (before_parents fs ++ to_list pl) (px ∷ []),
      )

  -- In a measured tree with fewer than 2^64 nodes, getIndex is the number of nodes before the
  -- node, although its accumulator may wrap below 0.
  pub get_index-eq :
      (c : Cursor A)
      → IsMeasured (root c)
      → real_size (root c) < size_mod
      → get_index c ≡ length (before c)
  unfolding get_index
  get_index-eq c m b =
      let at = IsMeasured-plug (subtree c) c.parents m in
      get_index_from-eq c.item c.height c.size c.left c.right c.parents 0 at.0 m b (omega arith)
      ∙ omega (
        arith,
        real_size-plug (subtree c) c.parents,
        real_size-length c.left,
        length-append (before_parents c.parents) (to_list c.left),
      )

  -- What a search for `target` in the subtree `t` at the end of `fs` has to find.
  abbrev Finds : ℕ → Tree A → Parents A → Option (Cursor A) → Type ℓ
  Finds target t fs o =
      (c : Cursor A) × (o ≡ some c) × (root c ≡ plug t fs) × (length (before c) ≡ target)

  get_by_index_from-Finds :
      (target border : ℕ) (t : Tree A) (fs : Parents A)
      → IsMeasured t
      → border ≡ length (before_parents fs)
      → border ≤ target
      → target < border + real_size t
      → border + real_size t < size_mod
      → Finds target t fs (get_by_index_from target border t fs)
  unfolding get_by_index_from
  get_by_index_from-Finds target border leaf fs m e lo hi b = absurd (omega arith)
  get_by_index_from-Finds target border (node x h s l r) fs m e lo hi b =
      let sl = size-eq l m.2 in
      let rest =
        get_by_index_from-Finds target (add_size (add_size border (size l)) 1) r
          (right_of x h s l ∷ fs) m.3 in
      let counted = length-append (before_parents fs) (to_list l) in
      let counted_all = length-append (before_parents fs ++ to_list l) (x ∷ []) in
      let nodes = real_size-length l in
      elim (Bool-cases (ltb target (add_size border (size l)))) [
        | inl smaller ↦ rw smaller (
            get_by_index_from-Finds target border l (left_of x h s r ∷ fs) m.2 e lo (ground arith)
              (omega arith))
        | inr not_smaller ↦ elim (Bool-cases (ltb (add_size border (size l)) target)) [
          | inl larger ↦
              rw (not_smaller, larger)
                (rest (omega arith) (ground arith) (ground arith) (omega arith))
          | inr not_larger ↦
              rw (not_smaller, not_larger) (cursor_at x h s l r fs, refl, refl, ground arith)
        ]
      ]

  -- In a measured tree with fewer than 2^64 nodes, getByIndex of a number below the node count
  -- finds the node of that tree with that many nodes before it.
  pub get_by_index-Finds :
      (t : Tree A) (target : ℕ)
      → IsMeasured t
      → real_size t < size_mod
      → target < real_size t
      → (c : Cursor A) × (get_by_index t target ≡ some c)
        × (root c ≡ t)
        × (length (before c) ≡ target)
  unfolding get_by_index
  get_by_index-Finds leaf target m b k = absurd (omega arith)
  get_by_index-Finds (node x h s l r) target m b k =
      let off : leb s target ≡ false = ground arith in
      rw off (
        get_by_index_from-Finds target 0 (node x h s l r) [] m refl (omega arith) (omega arith)
          (omega arith))

  -- It gives NULL if there are too few nodes.
  pub get_by_index_beyond :
      (t : Tree A) (target : ℕ) → IsMeasured t → real_size t ≤ target → get_by_index t target ≡ none
  unfolding get_by_index
  get_by_index_beyond leaf target m k = refl
  get_by_index_beyond (node x h s l r) target m k =
      let off : leb s target ≡ true = ground arith in rw off

  pub before-lt : (c : Cursor A) → length (before c) < real_size (root c)
  before-lt c = omega (
    arith,
    real_size-plug (subtree c) c.parents,
    real_size-length c.left,
    length-append (before_parents c.parents) (to_list c.left),
  )

  -- `distance` is the difference of the numbers of nodes before the two, modulo 2^64.
  pub distance-eq :
      (c d : Cursor A)
      → root c ≡ root d
      → IsMeasured (root c)
      → real_size (root c) < size_mod
      → distance c d ≡ sub_size (length (before d)) (length (before c))
  unfolding distance
  distance-eq c d e m b =
      ap₂ sub_size (get_index-eq d (subst IsMeasured e m) (subst (λ t. real_size t < size_mod) e b))
        (get_index-eq c m b)
