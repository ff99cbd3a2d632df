-- ===== src/Resources/Assignments/Ends.antt =====
-- No search for assignments stops for want of fuel.
use Prim.Native.String.{count}
use orchestrator_engine.Prelude.{
  ℕ, zero, suc, String, Bool, true, false, Option, none, some, List, [], ◌∷◌, ◌++◌, if◌then◌else◌,
  lookup, put, ltb, ◌==◌, eqb,
}
use orchestrator_engine.Json
use orchestrator_engine.Json.{Json, Fields, ℤ}
use orchestrator_engine.Result.{
  ok, ◌>>=◌, or_raise, IsSpared, stop, Spares, raising, >>=-IsSpared, raising-Spares,
  traverse-IsSpared, if-IsSpared, if-Spares, guard-IsSpared, or_raise-IsSpared, each-Spares,
  bad_need, exclusive_units, unknown_or_cyclic,
}
use orchestrator_engine.Resources.Registry.{Registry, identifier, positive}
use orchestrator_engine.Resources.Claims.{Mode, Claim, Allocation, capacity_of, compatible}
use orchestrator_engine.Resources.Selectors.{selector_leaves, selector_claim_available}
use orchestrator_engine.Resources.Alternatives.{Choice, depth, alternatives}
use orchestrator_engine.Resources.Alternatives.Ends.{
  capacity-IsSpared, compatible-IsSpared, selector_leaves-IsSpared,
  selector_claim_available-IsSpared, alternatives-Spares,
}
use orchestrator_engine.Resources.Demands.{Demand, claim_of, mode_of, check_group, demand, demands}
use orchestrator_engine.Resources.Assignments.{
  Scope, Step, hopeless, unavailable, merge, place_leaf, place, extend, options, plan_steps, search,
  assignments,
}

identifier-IsSpared : (v : Json) → IsSpared (identifier v)
unfolding identifier
identifier-IsSpared (Json.str s) =
    if-IsSpared (s == "") _ _ (λ e. cc) (if-IsSpared (ltb 160 (count s)) _ _ (λ e. cc) tt)
identifier-IsSpared _ = λ e. cc

positive-IsSpared : (v : Json) → IsSpared (positive v)
unfolding positive
positive-IsSpared (Json.num (ℤ.pos zero)) = λ e. cc
positive-IsSpared (Json.num (ℤ.pos (suc n))) = tt
positive-IsSpared (Json.num (ℤ.negsuc n)) = λ e. cc
positive-IsSpared _ = λ e. cc

mode_of-IsSpared : (v : Json) → IsSpared (mode_of v)
unfolding mode_of
mode_of-IsSpared (Json.str s) =
    if-IsSpared (s == "exclusive") _ _ tt (if-IsSpared (s == "shared") _ _ tt (λ e. cc))
mode_of-IsSpared _ = λ e. cc

check_group-IsSpared : (m : Mode) (g : Json) (n : ℕ) → IsSpared (check_group m g n)
unfolding check_group
check_group-IsSpared Mode.shared g n =
    >>=-IsSpared (identifier g) _ (identifier-IsSpared g) (λ s q. tt)
check_group-IsSpared Mode.exclusive g n = guard-IsSpared (eqb n 1) exclusive_units (λ e. cc)

demand-IsSpared : (reg : Registry) (v : Json) → IsSpared (demand reg v)
unfolding demand
demand-IsSpared reg (Json.obj need) =
    >>=-IsSpared (or_raise bad_need (Json.get "resource" need)) _
      (or_raise-IsSpared bad_need _ (λ e. cc))
      (λ raw q. >>=-IsSpared (identifier raw) _ (identifier-IsSpared raw) (λ name q.
        >>=-IsSpared (mode_of (Json.get_or "mode" (Json.str "exclusive") need)) _
          (mode_of-IsSpared _)
          (λ mode q.
            >>=-IsSpared (positive (Json.get_or "units" (Json.num (ℤ.pos 1)) need)) _
              (positive-IsSpared _)
              (λ units q.
                >>=-IsSpared (check_group mode (Json.get_or "compatibility" Json.null need) units) _
                  (check_group-IsSpared mode _ units)
                  (λ u q.
                    >>=-IsSpared (or_raise unknown_or_cyclic (lookup name reg)) _
                      (or_raise-IsSpared unknown_or_cyclic _ (λ e. cc)) (λ entry q. tt))))))
demand-IsSpared reg _ = λ e. cc

demands-IsSpared : (reg : Registry) (v : Json) → IsSpared (demands reg v)
unfolding demands
demands-IsSpared reg (Json.arr needs) = traverse-IsSpared (demand reg) _ (demand-IsSpared reg)
demands-IsSpared reg _ = λ e. cc

plan_steps-IsSpared : (reg : Registry) (ds : List Demand) → IsSpared (plan_steps reg ds)
unfolding plan_steps
plan_steps-IsSpared reg [] = tt
plan_steps-IsSpared reg (d ∷ ds) =
    >>=-IsSpared (plan_steps reg ds) _ (plan_steps-IsSpared reg ds) (λ later q.
      >>=-IsSpared (selector_leaves (depth reg) reg d.name []) _
        (selector_leaves-IsSpared reg d.name) (λ leaves q. tt))

unavailable-IsSpared :
    (sc : Scope) (c : Claim) (leaves : List String) → IsSpared (unavailable sc c leaves)
unfolding unavailable
unavailable-IsSpared sc c [] = tt
unavailable-IsSpared sc c (leaf ∷ leaves) =
    >>=-IsSpared (compatible sc.registry ((leaf, c) ∷ []) sc.others) _
      (compatible-IsSpared sc.registry ((leaf, c) ∷ []) sc.others)
      (λ fit q.
        >>=-IsSpared (unavailable sc c leaves) _ (unavailable-IsSpared sc c leaves) (λ rest q. tt))

options-Spares : (sc : Scope) (d : Demand) → Spares (options sc d)
unfolding options
options-Spares sc d =
    raising-Spares
      (selector_claim_available (depth sc.registry) sc.registry (claim_of d) sc.others sc.excluded
        d.name [])
      _ (selector_claim_available-IsSpared sc.registry (claim_of d) sc.others sc.excluded d.name)
      (λ available q. opened available)
  where
    opened :
        (available : Bool)
        → Spares (
            if available
            then raising (selector_leaves (depth sc.registry) sc.registry d.name []) (λ leaves.
              raising (unavailable sc (claim_of d) leaves) (λ out.
                alternatives
                  (depth sc.registry)
                  sc.registry
                  sc.priority
                  (sc.excluded ++ out)
                  d.name
                  []))
            else stop)
    opened false = tt
    opened true =
        raising-Spares (selector_leaves (depth sc.registry) sc.registry d.name []) _
          (selector_leaves-IsSpared sc.registry d.name)
          (λ leaves q.
            raising-Spares (unavailable sc (claim_of d) leaves) _
              (unavailable-IsSpared sc (claim_of d) leaves)
              (λ out q. alternatives-Spares sc.registry sc.priority (sc.excluded ++ out) d.name))

place_leaf-IsSpared :
    (reg : Registry) (d : Demand) (alloc : Allocation) (leaf : String)
    → IsSpared (place_leaf reg d alloc leaf)
unfolding place_leaf
place_leaf-IsSpared reg d alloc leaf = go (merge d (lookup leaf alloc))
  where
    go :
        (o : Option Claim)
        → IsSpared (elim o [
          | none ↦ ok none
          | some c ↦ do
            capacity ← capacity_of (lookup leaf reg)
            ok (if ltb capacity c.units then none else some (put leaf c alloc))
        ])
    go none = tt
    go (some c) =
        >>=-IsSpared (capacity_of (lookup leaf reg)) _ (capacity-IsSpared reg (lookup leaf reg))
          (λ n q. tt)

place-IsSpared :
    (reg : Registry) (d : Demand) (leaves : Choice) (alloc : Allocation)
    → IsSpared (place reg d leaves alloc)
unfolding place
place-IsSpared reg d [] alloc = tt
place-IsSpared reg d (leaf ∷ leaves) alloc =
    >>=-IsSpared (place_leaf reg d alloc leaf) _ (place_leaf-IsSpared reg d alloc leaf)
      (λ placed q. go placed (λ a. place-IsSpared reg d leaves a))
  where
    go :
        (placed : Option Allocation)
        → ((a : Allocation) → IsSpared (place reg d leaves a))
        → IsSpared (elim placed [ none ↦ ok none | some alloc' ↦ place reg d leaves alloc' ])
    go none h = tt
    go (some a) h = h a

extend-IsSpared :
    (sc : Scope) (d : Demand) (leaves : Choice) (alloc : Allocation)
    → IsSpared (extend sc d leaves alloc)
unfolding extend
extend-IsSpared sc d leaves alloc =
    >>=-IsSpared (place sc.registry d leaves alloc) _ (place-IsSpared sc.registry d leaves alloc)
      (λ placed q. go placed)
  where
    go :
        (placed : Option Allocation)
        → IsSpared (elim placed [
          | none ↦ ok none
          | some candidate ↦ do
            fit ← compatible sc.registry candidate sc.others
            ok (if fit then some candidate else none)
        ])
    go none = tt
    go (some a) =
        >>=-IsSpared (compatible sc.registry a sc.others) _
          (compatible-IsSpared sc.registry a sc.others) (λ fit q. tt)

search-Spares :
    (sc : Scope) (steps : List Step) (alloc : Allocation) → Spares (search sc steps alloc)
unfolding search
search-Spares sc [] alloc = if-Spares (hopeless sc [] alloc) _ _ tt tt
search-Spares sc (s ∷ ss) alloc = if-Spares (hopeless sc (s ∷ ss) alloc) _ _ tt (
    each-Spares (options sc s.demand) _ (options-Spares sc s.demand) (λ leaves.
      raising-Spares (extend sc s.demand leaves alloc) _ (extend-IsSpared sc s.demand leaves alloc)
        (λ extended q. go extended (λ c. search-Spares sc ss c))))
  where
    go :
        (extended : Option Allocation)
        → ((c : Allocation) → Spares (search sc ss c))
        → Spares (elim extended [ none ↦ stop | some candidate ↦ search sc ss candidate ])
    go none h = tt
    go (some c) h = h c

-- Whatever the registry, the needs and what is held, the search for assignments does not end for want
-- of the fuel that stands for its recursion over selectors, however they refer to each other: it
-- ends behind its last allocation, or with an exception of the program.
pub assignments-Spares : (sc : Scope) (needs : Json) → Spares (assignments sc needs)
unfolding assignments
assignments-Spares sc needs =
    raising-Spares (demands sc.registry needs) _ (demands-IsSpared sc.registry needs) (λ specs q.
      raising-Spares (plan_steps sc.registry specs) _ (plan_steps-IsSpared sc.registry specs)
        (λ steps q. search-Spares sc steps []))
