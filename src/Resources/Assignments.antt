-- ===== src/Resources/Assignments.antt =====
-- resource_queue.py: `assignments`, the lazy search for allocations that meet a list of needs.
-- `search` is the depth-first search as a recursion; the loop of the program over explicit frames
-- (index, allocation, iterator) is in Frames, where a frame is a call of `search`.
pub mod Admissible
pub mod Frames
pub mod Ends
use orchestrator_engine.Prelude.{
  ℕ, ◌+◌, String, Bool, false, not, ◌||◌, Option, none, some, List, [], ◌∷◌, ◌++◌, ltb,
  if◌then◌else◌, contains, any, Dict, lookup, put, keys,
}
use orchestrator_engine.Json
use orchestrator_engine.Json.{Json}
use orchestrator_engine.Result.{Result, ok, ◌>>=◌, Gen, stop, yield, raising, each}
use orchestrator_engine.Resources.Registry.{Registry}
use orchestrator_engine.Resources.Claims.{is_shared, Claim, Allocation, capacity_of, compatible}
use orchestrator_engine.Resources.Selectors.{union, selector_leaves, selector_claim_available}
use orchestrator_engine.Resources.Alternatives.{Choice, depth, alternatives}
use orchestrator_engine.Resources.Demands.{Demand, claim_of, demands}

-- What stays fixed in one search.
pub record Scope : Type 0 where
  pub registry : Registry
  pub others : List Allocation
  pub excluded : List String
  pub priority : Dict ℕ
  pub required : List String

-- A specification and the leaves that it and the later ones can reach, `remaining[index]`.
pub record Step : Type 0 where
  pub demand : Demand
  pub remaining : List String

abbrev pub remaining_at : List Step → List String
remaining_at [] = []
remaining_at (s ∷ ss) = s.remaining

unfoldable pub plan_steps : Registry → List Demand → Result (List Step)
plan_steps reg [] = ok []
plan_steps reg (d ∷ ds) = do
  later ← plan_steps reg ds
  leaves ← selector_leaves (depth reg) reg d.name []
  ok (record { demand = d; remaining = union (remaining_at later) leaves } ∷ later)

-- `required and not required & (set(allocation) | remaining[index])`
unfoldable pub hopeless : Scope → List Step → Allocation → Bool
hopeless sc steps alloc = elim sc.required [
  | [] ↦ false
  | r ∷ rs ↦
      not (any (λ leaf. contains (keys alloc) leaf || contains (remaining_at steps) leaf) (r ∷ rs))
]

-- The leaves of the selector on which the claim alone does not fit beside the others.
unfoldable pub unavailable : Scope → Claim → List String → Result (List String)
unavailable sc claim [] = ok []
unavailable sc claim (leaf ∷ leaves) = do
  fit ← compatible sc.registry ((leaf, claim) ∷ []) sc.others
  rest ← unavailable sc claim leaves
  ok (if fit then rest else leaf ∷ rest)

-- The iterator of a frame.
unfoldable pub options : Scope → Demand → Gen Choice
options sc d =
    let reg = sc.registry in
    raising (selector_claim_available (depth reg) reg (claim_of d) sc.others sc.excluded d.name [])
      (λ available.
        if available
        then raising (selector_leaves (depth reg) reg d.name []) (λ leaves.
          raising (unavailable sc (claim_of d) leaves)
            (λ out. alternatives (depth reg) reg sc.priority (sc.excluded ++ out) d.name []))
        else stop)

-- The claim on a leaf that the allocation may already hold; `none` is the `break`.
unfoldable pub merge : Demand → Option Claim → Option Claim
merge d none = some (claim_of d)
merge d (some old) =
    if not (is_shared d.mode) || not (is_shared old.mode) || not (Json.eq old.compatibility d.group)
    then none
    else some (record (claim_of d) { units = d.units + old.units })

-- One round of the loop over the leaves of a choice.
unfoldable pub place_leaf : Registry → Demand → Allocation → String → Result (Option Allocation)
place_leaf reg d alloc leaf = elim (merge d (lookup leaf alloc)) [
  | none ↦ ok none
  | some c ↦ do
    capacity ← capacity_of (lookup leaf reg)
    ok (if ltb capacity c.units then none else some (put leaf c alloc))
]

unfoldable pub place : Registry → Demand → Choice → Allocation → Result (Option Allocation)
place reg d [] alloc = ok (some alloc)
place reg d (leaf ∷ leaves) alloc = do
  placed ← place_leaf reg d alloc leaf
  elim placed [ none ↦ ok none | some alloc' ↦ place reg d leaves alloc' ]

-- The loop with its `else` branch: the candidate, if it fits beside the others.
unfoldable pub extend : Scope → Demand → Choice → Allocation → Result (Option Allocation)
extend sc d leaves alloc = do
  placed ← place sc.registry d leaves alloc
  elim placed [
    | none ↦ ok none
    | some candidate ↦ do
      fit ← compatible sc.registry candidate sc.others
      ok (if fit then some candidate else none)
  ]

unfoldable pub search : Scope → List Step → Allocation → Gen Allocation
search sc [] alloc = if hopeless sc [] alloc then stop else yield alloc stop
search sc (s ∷ ss) alloc =
    if hopeless sc (s ∷ ss) alloc
    then stop
    else each (options sc s.demand) (λ leaves.
      raising (extend sc s.demand leaves alloc)
        (λ extended. elim extended [ none ↦ stop | some candidate ↦ search sc ss candidate ]))

unfoldable pub assignments : Scope → Json → Gen Allocation
assignments sc needs = raising (demands sc.registry needs) (λ specifications.
    raising (plan_steps sc.registry specifications) (λ steps. search sc steps []))
