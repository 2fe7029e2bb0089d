-- ===== src/AvlTree/Index/Steps.antt =====
-- random_access_list.hpp: `go_to` moves by its step amount, linearly or through indices.
use garbage.Prelude.{
  ℕ, zero, suc, ◌+◌, ◌-◌, ◌<◌, ◌≡◌, refl, ap, ◌∙◌, [], ◌∷◌, Option, none, some, arith, length,
  length-append, size_mod, inl, inr, Bool-cases, leb, pos, negsuc, add_size, sub_size,
}
use garbage.AvlTree.Nodes.{Cursor, before, after, to_list-cursor}
use garbage.AvlTree.Balance.Caches.{IsMeasured, real_size, real_size-length}
use garbage.AvlTree.Walk.{forward, backward}
use garbage.AvlTree.Walk.Laws.{root, IsNext, IsPrevious, forward-IsNext, backward-IsPrevious}
use garbage.AvlTree.Index.{apply_n_times, go_to}
use garbage.AvlTree.Index.Laws.{get_index-eq, get_by_index-Finds, before-lt}

module _ {ℓ} {A : Type ℓ} where
  -- The node of the tree of `c` with `target` nodes before it, if there is one.
  abbrev pub LandsAt : Cursor A → ℕ → Option (Cursor A) → Type ℓ
  LandsAt c target o =
      (d : Cursor A) × (o ≡ some d) × (root d ≡ root c) × (length (before d) ≡ target)

  index-split : (c : Cursor A) → real_size (root c) ≡ length (before c) + 1 + length (after c)
  index-split c = omega (
    arith,
    real_size-length (root c),
    ap length (to_list-cursor c),
    length-append (before c) (c.item ∷ after c),
  )

  forward-LandsAt :
      (c : Cursor A)
      → length (before c) + 1 < real_size (root c)
      → LandsAt c (length (before c) + 1) (forward c)
  forward-LandsAt c h = go (forward c) (forward-IsNext c)
    where
      go : (o : Option (Cursor A)) → IsNext c o → LandsAt c (length (before c) + 1) o
      go none k = absurd (omega (arith, index-split c, ap length k))
      go (some d) k =
          (d, refl, k.0, omega (arith, ap length k.1, length-append (before c) (c.item ∷ [])))

  backward-LandsAt :
      (c : Cursor A) → 0 < length (before c) → LandsAt c (length (before c) - 1) (backward c)
  backward-LandsAt c h = go (backward c) (backward-IsPrevious c)
    where
      go : (o : Option (Cursor A)) → IsPrevious c o → LandsAt c (length (before c) - 1) o
      go none k = absurd (omega (arith, ap length k))
      go (some d) k =
          (d, refl, k.0, omega (arith, ap length k.1, length-append (before d) (d.item ∷ [])))

  apply_n_times-suc :
      (f : Cursor A → Option (Cursor A)) (n : ℕ) (c d : Cursor A) (o : Option (Cursor A))
      → f c ≡ some d
      → apply_n_times f n d ≡ o
      → apply_n_times f (suc n) c ≡ o
  unfolding apply_n_times
  apply_n_times-suc f n c d o e k = rw (e, apply_n_times) k

  apply_forward-LandsAt :
      (n target : ℕ) (c : Cursor A)
      → length (before c) + n ≡ target
      → target < real_size (root c)
      → LandsAt c target (apply_n_times forward n c)
  unfolding apply_n_times
  apply_forward-LandsAt zero target c e h = (c, refl, refl, omega arith)
  apply_forward-LandsAt (suc n) target c e h =
      let (d, found, same, at) = forward-LandsAt c (omega arith) in
      let (d', found', same', at') =
        apply_forward-LandsAt n target d (omega arith) (omega (arith, ap real_size same)) in
      (d', apply_n_times-suc forward n c d _ found found', same' ∙ same, at')

  apply_backward-LandsAt :
      (n target : ℕ) (c : Cursor A)
      → target + n ≡ length (before c)
      → LandsAt c target (apply_n_times backward n c)
  unfolding apply_n_times
  apply_backward-LandsAt zero target c e = (c, refl, refl, omega arith)
  apply_backward-LandsAt (suc n) target c e =
      let (d, found, same, at) = backward-LandsAt c (omega arith) in
      let (d', found', same', at') = apply_backward-LandsAt n target d (omega arith) in
      (d', apply_n_times-suc backward n c d _ found found', same' ∙ same, at')

  -- In a measured tree with fewer than 2^64 nodes, go_to by n steps forwards lands on the node n
  -- places later, if there is one, whether it walks or goes by index.
  pub go_to-forward :
      (c : Cursor A) (n : ℕ)
      → IsMeasured (root c)
      → real_size (root c) < size_mod
      → length (before c) + n < real_size (root c)
      → LandsAt c (length (before c) + n) (go_to c (pos n))
  unfolding go_to
  go_to-forward c n m b h = elim (Bool-cases (leb n 2)) [
    | inl near ↦ rw near (apply_forward-LandsAt n _ c refl h)
    | inr far ↦
        let index : add_size (length (before c)) n ≡ length (before c) + n = omega arith in
        rw (far, get_index-eq c m b, index) (get_by_index-Finds (root c) _ m b h)
  ]

  -- In a measured tree with fewer than 2^64 nodes, go_to by n + 1 steps backwards lands on the
  -- node n + 1 places earlier, if there is one, whether it walks or goes by index.
  pub go_to-backward :
      (c : Cursor A) (n target : ℕ)
      → IsMeasured (root c)
      → real_size (root c) < size_mod
      → target + (n + 1) ≡ length (before c)
      → LandsAt c target (go_to c (negsuc n))
  unfolding go_to
  go_to-backward c n target m b h = elim (Bool-cases (leb (n + 1) 2)) [
    | inl near ↦ rw near (apply_backward-LandsAt (n + 1) target c h)
    | inr far ↦
        let index : sub_size (length (before c)) (n + 1) ≡ target = omega (arith, before-lt c) in
        rw (far, get_index-eq c m b, index)
          (get_by_index-Finds (root c) target m b (omega (arith, before-lt c)))
  ]
