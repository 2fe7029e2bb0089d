-- ===== src/DebugAllocator/Tests.antt =====
-- immutable_data_debug_allocator.h: the laws at three blocks of 64 KiB.
use garbage.Prelude.{ℕ, Bool, ◌||◌, ◌==◌, inl, ◌≡◌, refl, true, [], ◌∷◌, List, none, some, arith}
use garbage.DebugAllocator.Runs.{
  IsRegion, Disjoint, Call, allocates, deallocates, run, Follows, run-live,
}

-- The second allocation fails, and the first block is given back last.
abbrev three_calls : List Call
three_calls =
    allocates 100 true (some 4194304)
    ∷ allocates 8 true none
    ∷ allocates 50 true (some 65536)
    ∷ deallocates 65536 50
    ∷ deallocates 4194304 100
    ∷ []

-- `VirtualFree` succeeds for the two regions.
abbrev virtual_free : ℕ → Bool
virtual_free p = p == 4194304 || p == 65536

three_calls-Follows : Follows virtual_free [] three_calls
unfolding IsRegion Disjoint
three_calls-Follows = (
  (refl, λ e. cc e),
  tt,
  (
    (refl, λ e. cc e),
    (inl (omega arith), tt),
    ((50, refl, omega arith), refl, ((100, refl, omega arith), refl, tt)),
  ),
)

run-live_example :
    run virtual_free [] three_calls
    ≡ record { blocks = []; freed = some 65536 ∷ some 4194304 ∷ []; asserted = true }
run-live_example = run-live virtual_free [] three_calls tt three_calls-Follows
