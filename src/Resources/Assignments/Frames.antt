-- ===== src/Resources/Assignments/Frames.antt =====
-- resource_queue.py: the loop of `assignments` as it is written, over a stack of explicit frames.
pub mod Refines
use orchestrator_engine.Prelude.{
  ℕ, zero, suc, Option, none, some, List, [], ◌∷◌, ◌++◌, if◌then◌else◌,
}
use orchestrator_engine.Result.{Error, Result, ok, err, ◌>>=◌, Gen, stop, fail, yield}
use orchestrator_engine.Resources.Claims.{Allocation}
use orchestrator_engine.Resources.Selectors.{selector_leaves, selector_claim_available}
use orchestrator_engine.Resources.Alternatives.{Choice, depth, alternatives}
use orchestrator_engine.Resources.Demands.{Demand, claim_of, demands}
use orchestrator_engine.Json.{Json}
use orchestrator_engine.Resources.Assignments.{
  Scope, Step, hopeless, unavailable, extend, plan_steps,
}

-- (index, allocation, iterator), where the index is the steps that are left from there.
pub record Frame : Type 0 where
  pub steps : List Step
  pub allocation : Allocation
  pub iterator : Option (Gen Choice)

-- What one round of the loop does: it goes on with a stack, yields first, or raises.
pub data Move : Type 0 where
  goes : List Frame → Move
  gives : Allocation → List Frame → Move
  raises : Error → Move

-- `if iterator is None`: the new iterator, or none where the frame is popped.
unfoldable pub opened : Scope → Demand → Result (Option (Gen Choice))
opened sc d =
    let reg = sc.registry in
    do
      available ←
          selector_claim_available (depth reg) reg (claim_of d) sc.others sc.excluded d.name []
      if available
          then (do
            leaves ← selector_leaves (depth reg) reg d.name []
            out ← unavailable sc (claim_of d) leaves
            ok (some (alternatives (depth reg) reg sc.priority (sc.excluded ++ out) d.name [])))
          else ok none

-- The candidate is pushed above the frame that made it.
unfoldable pub pushed : Result (Option Allocation) → List Step → Frame → List Frame → Move
pushed (err e) later f rest = Move.raises e
pushed (ok none) later f rest = Move.goes (f ∷ rest)
pushed (ok (some candidate)) later f rest =
    Move.goes (record { steps = later; allocation = candidate; iterator = none } ∷ f ∷ rest)

-- From `leaves = next(iterator, None)` on.
unfoldable pub advance : Scope → Step → List Step → Allocation → Gen Choice → List Frame → Move
advance sc s later alloc stop rest = Move.goes rest
advance sc s later alloc (fail e) rest = Move.raises e
advance sc s later alloc (yield leaves g) rest =
    pushed (extend sc s.demand leaves alloc) later
      (record { steps = s ∷ later; allocation = alloc; iterator = some g }) rest

unfoldable pub iterate :
    Scope → Step → List Step → Allocation → Result (Option (Gen Choice)) → List Frame → Move
iterate sc s later alloc (err e) rest = Move.raises e
iterate sc s later alloc (ok none) rest = Move.goes rest
iterate sc s later alloc (ok (some g)) rest = advance sc s later alloc g rest

unfoldable pub iterator_of : Scope → Step → Option (Gen Choice) → Result (Option (Gen Choice))
iterator_of sc s none = opened sc s.demand
iterator_of sc s (some g) = ok (some g)

unfoldable pub visit : Scope → List Step → Allocation → Option (Gen Choice) → List Frame → Move
visit sc [] alloc iterator rest = Move.gives alloc rest
visit sc (s ∷ later) alloc iterator rest = iterate sc s later alloc (iterator_of sc s iterator) rest

-- One round, with its frame on top of the others.
unfoldable pub turn : Scope → Frame → List Frame → Move
turn sc f rest =
    if hopeless sc f.steps f.allocation
    then Move.goes rest
    else visit sc f.steps f.allocation f.iterator rest

unfoldable pub then_yield : Allocation → Option (Gen Allocation) → Option (Gen Allocation)
then_yield alloc none = none
then_yield alloc (some g) = some (yield alloc g)

unfoldable pub follow : Move → (List Frame → Option (Gen Allocation)) → Option (Gen Allocation)
follow (Move.goes st) k = k st
follow (Move.gives alloc st) k = then_yield alloc (k st)
follow (Move.raises e) k = some (fail e)

-- `while stack`, on fuel.
unfoldable pub run : Scope → (fuel : ℕ) → List Frame → Option (Gen Allocation)
run sc zero st = none
run sc (suc fuel) [] = some stop
run sc (suc fuel) (f ∷ rest) = follow (turn sc f rest) (run sc fuel)

-- stack = [(0, {}, None)]
abbrev pub first_frame : List Step → Frame
first_frame steps = record { steps = steps; allocation = []; iterator = none }

unfoldable pub started_loop : Scope → (fuel : ℕ) → Result (List Step) → Option (Gen Allocation)
started_loop sc fuel (err e) = some (fail e)
started_loop sc fuel (ok steps) = run sc fuel (first_frame steps ∷ [])

-- `assignments`, with the loop as the source has it.
unfoldable pub assignments_loop : Scope → (fuel : ℕ) → Json → Option (Gen Allocation)
assignments_loop sc fuel needs =
    started_loop sc fuel (demands sc.registry needs >>= plan_steps sc.registry)
