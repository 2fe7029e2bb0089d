-- ===== src/PoolAllocator/Tests.antt =====
-- allocator_from_pool_for_node_bassed_containers.h: the laws at a run from no allocator at all.
use garbage.Prelude.{◌≡◌, refl, true, [], ◌∷◌, List, none, some}
use garbage.PoolAllocator.{Allocators}
use garbage.PoolAllocator.Counts.{Counted}
use garbage.PoolAllocator.Runs.{
  IsCounted, Call, default_constructs, copies, assigns, destructs, apply, run, Follows,
  run-IsCounted,
}

abbrev no_allocators : Allocators
no_allocators = record { impls = []; counts = λ a. none }

no_allocators-IsCounted : IsCounted no_allocators
unfolding IsCounted Counted
no_allocators-IsCounted = λ a. refl

-- The pool at 100 loses its last allocator to an assignment.
abbrev calls : List Call
calls =
    default_constructs (some 100) true
    ∷ copies 0
    ∷ default_constructs (some 200) true
    ∷ destructs 1
    ∷ assigns 1 0
    ∷ []

calls-Follows : Follows no_allocators calls
unfolding apply
calls-Follows = (
  refl,
  ((some 100, refl), (refl, ((some 100, refl), (((some 100, refl), (some 200, refl)), tt)))),
)

run-IsCounted_example : (s' : Allocators) × (run no_allocators calls ≡ some s') × IsCounted s'
run-IsCounted_example = run-IsCounted no_allocators calls no_allocators-IsCounted calls-Follows
