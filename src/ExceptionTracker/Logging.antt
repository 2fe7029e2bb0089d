-- ===== src/ExceptionTracker/Logging.antt =====
-- ExceptionTracker.cpp: which pieces of a report are written, and what stands in the log after them.
use mathlib.Core.List.{Sublistᴰ}
use garbage.Prelude.{
  ℕ, ◌+◌, ◌*◌, ◌≤◌, ◌≡◌, refl, ap, sym, ◌∙◌, [], ◌∷◌, ◌++◌, List, some, leb, Bool-cases, inl, inr,
  arith, take, length, length-append, append_assoc, append-nil,
}
use garbage.ExceptionTracker.{
  Piece, Setup, Tracker, Meanwhile, nothing_raised, caught_inside, thrown_out, write, write_all,
  leave,
}
use garbage.ExceptionTracker.Lists.{drop, take-append-drop, Sublist-self, Sublist-append}

-- The pieces that are written themselves: those after an exception that leaves are not.
unfoldable pub reached : Meanwhile → List Piece → List Piece
reached nothing_raised pieces = pieces
reached (caught_inside n code inner rest) pieces = take n pieces ++ reached rest (drop n pieces)
reached (thrown_out n code inner) pieces = take n pieces

-- So many for each of the exceptions that are raised.
unfoldable pub extra : ℕ → Meanwhile → ℕ
extra n nothing_raised = 0
extra n (caught_inside k code inner rest) = n + extra n rest
extra n (thrown_out k code inner) = n

-- The exceptions that are raised meanwhile, without those in the handling of others.
unfoldable pub raised : Meanwhile → ℕ
raised nothing_raised = 0
raised (caught_inside n code inner rest) = 1 + raised rest
raised (thrown_out n code inner) = 1

pub extra_zero : (meanwhile : Meanwhile) → extra 0 meanwhile ≡ 0
unfolding extra
extra_zero nothing_raised = refl
extra_zero (caught_inside n code inner rest) = omega (arith, extra_zero rest)
extra_zero (thrown_out n code inner) = refl

pub extra_four : (meanwhile : Meanwhile) → extra 4 meanwhile ≡ 4 * raised meanwhile
unfolding extra raised
extra_four nothing_raised = omega arith
extra_four (caught_inside n code inner rest) = omega (arith, extra_four rest)
extra_four (thrown_out n code inner) = omega arith

length-take-drop :
    (n : ℕ) (pieces : List Piece) → length (take n pieces) + length (drop n pieces) ≡ length pieces
length-take-drop n pieces =
    sym (length-append (take n pieces) (drop n pieces)) ∙ ap length (take-append-drop n pieces)

pub length-reached :
    (meanwhile : Meanwhile) (pieces : List Piece)
    → length (reached meanwhile pieces) ≤ length pieces
unfolding reached
length-reached nothing_raised pieces = omega arith
length-reached (caught_inside n code inner rest) pieces = omega (
  arith,
  length-append (take n pieces) (reached rest (drop n pieces)),
  length-reached rest (drop n pieces),
  length-take-drop n pieces,
)
length-reached (thrown_out n code inner) pieces = omega (arith, length-take-drop n pieces)

-- After the log come the pieces, in their order, and at most so many more.
abbrev pub Logs : List Piece → List Piece → ℕ → Tracker → Type 0
Logs log pieces n t =
    (added : List Piece) × (t.file ≡ some (log ++ added))
    × Sublistᴰ pieces added
    × (length added ≤ length pieces + n)

write-file :
    (setup : Setup) (piece : Piece) (t : Tracker) (log : List Piece)
    → t.file ≡ some log
    → (write setup piece t).file ≡ some (log ++ piece ∷ [])
unfolding write
write-file setup piece t log e = rw e refl

pub write_all-file :
    (setup : Setup) (pieces : List Piece) (t : Tracker) (log : List Piece)
    → t.file ≡ some log
    → (write_all setup pieces t).file ≡ some (log ++ pieces)
unfolding write_all
write_all-file setup [] t log e = e ∙ ap some (sym (append-nil log))
write_all-file setup (piece ∷ pieces) t log e =
    write_all-file setup pieces (write setup piece t) (log ++ piece ∷ [])
      (write-file setup piece t log e)
    ∙ ap some (append_assoc log (piece ∷ []) pieces)

pub leave-file : (t : Tracker) → (leave t).file ≡ t.file
unfolding leave
leave-file t = elim (Bool-cases (leb 1 t.enter_count)) [ inl e ↦ rw e refl | inr e ↦ rw e refl ]

pub Logs-none : (log : List Piece) (n : ℕ) (t : Tracker) → t.file ≡ some log → Logs log [] n t
Logs-none log n t e = ([], e ∙ ap some (sym (append-nil log)), Sublistᴰ.slnil, omega arith)

pub Logs-all :
    (log pieces : List Piece) (n : ℕ) (t : Tracker)
    → t.file ≡ some (log ++ pieces)
    → Logs log pieces n t
Logs-all log pieces n t e = (pieces, e, Sublist-self pieces, omega arith)

pub Logs-trans :
    (log xs ys us : List Piece) (n k m : ℕ) (t : Tracker)
    → Sublistᴰ xs us
    → length us ≤ length xs + n
    → n + k ≤ m
    → Logs (log ++ us) ys k t
    → Logs log (xs ++ ys) m t
Logs-trans log xs ys us n k m t s l o (vs, e, r, b) = (
  us ++ vs,
  e ∙ ap some (append_assoc log us vs),
  Sublist-append s r,
  omega (arith, length-append us vs, length-append xs ys, l, o, b),
)

pub Logs-file :
    (log pieces : List Piece) (n : ℕ) (t u : Tracker)
    → u.file ≡ t.file
    → Logs log pieces n t
    → Logs log pieces n u
Logs-file log pieces n t u e (added, f, s, l) = (added, e ∙ f, s, l)
