-- ===== src/AvlTree/Nodes.antt =====
-- random_access_list.hpp: `TAvlTreeNode`, and what its pointers reach. A node's `_left` and `_right`
-- are the subtrees of a `node`. Its `_parent` chain is the path from it to the root: a `Cursor` is
-- a `TAvlTreeNode*` that is not NULL.
use garbage.Prelude.{ℕ, ◌≡◌, sym, ◌∙◌, List, [], ◌∷◌, ◌++◌, append_assoc, append-nil}

-- A payload, `_height`, `_size`, `_left` and `_right`. `leaf` is NULL.
pub data Tree {ℓ} (A : Type ℓ) : Type ℓ where
  leaf : Tree A
  node : A → ℕ → ℕ → Tree A → Tree A → Tree A

-- The parent of a left child, with the right child beside it, and the mirror image.
pub data Frame {ℓ} (A : Type ℓ) : Type ℓ where
  left_of : A → ℕ → ℕ → Tree A → Frame A
  right_of : A → ℕ → ℕ → Tree A → Frame A

-- The parent comes first, the root last.
abbrev pub Parents {ℓ} : Type ℓ → Type ℓ
Parents A = List (Frame A)

pub record Cursor {ℓ} (A : Type ℓ) : Type ℓ where
  pub item : A
  pub height : ℕ
  pub size : ℕ
  pub left : Tree A
  pub right : Tree A
  pub parents : Parents A

module _ {ℓ} {A : Type ℓ} where
  abbrev pub cursor_at : A → ℕ → ℕ → Tree A → Tree A → Parents A → Cursor A
  cursor_at x h s l r fs = record {
    item = x;
    height = h;
    size = s;
    left = l;
    right = r;
    parents = fs;
  }

  abbrev pub subtree : Cursor A → Tree A
  subtree c = node c.item c.height c.size c.left c.right

  -- The parent with `t` in its child's place.
  abbrev pub fill : Frame A → Tree A → Tree A
  fill (left_of x h s r) t = node x h s t r
  fill (right_of x h s l) t = node x h s l t

  -- The whole tree with `t` at the end of the path.
  abbrev pub plug : Tree A → Parents A → Tree A
  plug t [] = t
  plug t (f ∷ fs) = plug (fill f t) fs

  abbrev pub to_list : Tree A → List A
  to_list leaf = []
  to_list (node x h s l r) = to_list l ++ x ∷ to_list r

  -- What stands before and after the place at the end of a path.
  abbrev pub before_parents : Parents A → List A
  before_parents [] = []
  before_parents (left_of x h s r ∷ fs) = before_parents fs
  before_parents (right_of x h s l ∷ fs) = before_parents fs ++ to_list l ++ x ∷ []

  abbrev pub after_parents : Parents A → List A
  after_parents [] = []
  after_parents (left_of x h s r ∷ fs) = x ∷ (to_list r ++ after_parents fs)
  after_parents (right_of x h s l ∷ fs) = after_parents fs

  abbrev pub before : Cursor A → List A
  before c = before_parents c.parents ++ to_list c.left

  abbrev pub after : Cursor A → List A
  after c = to_list c.right ++ after_parents c.parents

  pub to_list-fill :
      (f : Frame A) (t : Tree A) (fs : Parents A)
      → before_parents fs ++ (to_list (fill f t) ++ after_parents fs)
        ≡ before_parents (f ∷ fs) ++ (to_list t ++ after_parents (f ∷ fs))
  to_list-fill (left_of x h s r) t fs = simp append_assoc
  to_list-fill (right_of x h s l) t fs = simp append_assoc

  pub to_list-plug :
      (t : Tree A) (fs : Parents A)
      → to_list (plug t fs) ≡ before_parents fs ++ (to_list t ++ after_parents fs)
  to_list-plug t [] = sym (append-nil (to_list t))
  to_list-plug t (f ∷ fs) = to_list-plug (fill f t) fs ∙ to_list-fill f t fs

  -- The nodes of the whole tree are those before a cursor, its own and those after it.
  pub to_list-cursor :
      (c : Cursor A) → to_list (plug (subtree c) c.parents) ≡ before c ++ c.item ∷ after c
  to_list-cursor c = to_list-plug (subtree c) c.parents ∙ simp append_assoc
