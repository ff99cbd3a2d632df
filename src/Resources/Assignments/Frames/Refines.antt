-- ===== src/Resources/Assignments/Frames/Refines.antt =====
-- The loop over frames yields what the recursion yields, and ends.
use orchestrator_engine.Prelude.{
  ℕ, zero, suc, ◌≡◌, refl, sym, ap, subst, inl, inr, Bool, true, false, Option, none, some, List,
  [], ◌∷◌, ◌++◌, String, Bool-cases, if◌then◌else◌,
}
use orchestrator_engine.Result.{
  Result, ok, err, ◌>>=◌, Gen, stop, fail, yield, chain, each, raising,
}
use orchestrator_engine.Resources.Claims.{Allocation}
use orchestrator_engine.Resources.Selectors.{selector_leaves, selector_claim_available}
use orchestrator_engine.Resources.Alternatives.{Choice, depth, alternatives}
use orchestrator_engine.Resources.Demands.{Demand, claim_of, demands}
use orchestrator_engine.Json.{Json}
use orchestrator_engine.Resources.Assignments.{
  Scope, Step, hopeless, unavailable, options, extend, search, plan_steps, assignments,
}
use orchestrator_engine.Resources.Assignments.Frames.{
  Frame, Move, opened, pushed, advance, iterate, iterator_of, visit, turn, then_yield, follow, run,
  first_frame, started_loop, assignments_loop,
}

chain_assoc : {A : Type 0} (f g h : Gen A) → chain (chain f g) h ≡ chain f (chain g h)
unfolding chain
chain_assoc stop g h = refl
chain_assoc (fail e) g h = refl
chain_assoc (yield a f) g h = ap (yield a) (chain_assoc f g h)

chain_stop : {A : Type 0} (f : Gen A) → chain f stop ≡ f
unfolding chain
chain_stop stop = refl
chain_stop (fail e) = refl
chain_stop (yield a f) = ap (yield a) (chain_stop f)

-- The iterator of the recursion, out of that of the loop.
abbrev from_opened : Result (Option (Gen Choice)) → Gen Choice
from_opened (err e) = fail e
from_opened (ok none) = stop
from_opened (ok (some g)) = g

opened_last :
    (c : Result (List String)) (k : List String → Gen Choice)
    → raising c k ≡ from_opened (c >>= λ out. ok (some (k out)))
opened_last (ok out) k = refl
opened_last (err e) k = refl

opened_chain :
    (a : Result Bool) (b : Result (List String)) (c : List String → Result (List String))
    (k : List String → Gen Choice)
    → raising a (λ v. if v then raising b (λ leaves. raising (c leaves) k) else stop)
      ≡ from_opened (
          a >>= λ v. if v then (b >>= λ leaves. c leaves >>= λ out. ok (some (k out))) else ok none)
opened_chain (err e) b c k = refl
opened_chain (ok false) b c k = refl
opened_chain (ok true) (err e) c k = refl
opened_chain (ok true) (ok leaves) c k = opened_last (c leaves) k

module _ (sc : Scope) where
  abbrev body : Step → List Step → Allocation → Choice → Gen Allocation
  body s later alloc leaves =
      raising (extend sc s.demand leaves alloc)
        (λ extended. elim extended [ none ↦ stop | some candidate ↦ search sc later candidate ])

  -- The loop from this stack on, or behind this move, has these results.
  abbrev Runs : List Frame → Gen Allocation → Type 0
  Runs st g = (fuel : ℕ) × (run sc fuel st ≡ some g)

  abbrev Follows : Move → Gen Allocation → Type 0
  Follows mv g = (fuel : ℕ) × (follow mv (run sc fuel) ≡ some g)

  turn-Runs :
      (f : Frame) (rest : List Frame) (g : Gen Allocation)
      → Follows (turn sc f rest) g
      → Runs (f ∷ rest) g
  unfolding run
  turn-Runs f rest g (fuel, e) = (suc fuel, e)

  opened-options : (d : Demand) → options sc d ≡ from_opened (opened sc d)
  unfolding options opened
  opened-options d =
      opened_chain
        (selector_claim_available (depth sc.registry) sc.registry (claim_of d) sc.others sc.excluded
          d.name [])
        (selector_leaves (depth sc.registry) sc.registry d.name []) (unavailable sc (claim_of d))
        (λ out.
          alternatives (depth sc.registry) sc.registry sc.priority (sc.excluded ++ out) d.name [])

  -- A frame whose iterator has `g` left, above a stack with the results `r`. The frames above it are
  -- those of the later steps.
  module _ (s : Step) (later : List Step) (alloc : Allocation)
      (deeper : (c : Allocation) (rest : List Frame) (r : Gen Allocation)
        → Runs rest r
        → Runs
            (record { steps = later; allocation = c; iterator = none } ∷ rest)
            (chain (search sc later c) r))
      (hopeful : hopeless sc (s ∷ later) alloc ≡ false) (rest : List Frame) (r : Gen Allocation)
      (below : Runs rest r) where
    abbrev with_iterator : Gen Choice → Frame
    with_iterator g = record { steps = s ∷ later; allocation = alloc; iterator = some g }

    pushed-Follows :
        (o : Result (Option Allocation)) (f : Frame) (more : Gen Allocation)
        → Runs (f ∷ rest) (chain more r)
        → Follows (pushed o later f rest) (
            chain
              (chain
                (raising o (λ extended. elim extended [ none ↦ stop | some c ↦ search sc later c ]))
                more)
              r)
    unfolding pushed follow run chain
    pushed-Follows (err e) f more h = (zero, refl)
    pushed-Follows (ok none) f more h = h
    pushed-Follows (ok (some c)) f more h =
        subst (Runs (record { steps = later; allocation = c; iterator = none } ∷ f ∷ rest))
          (sym (chain_assoc (search sc later c) more r)) (deeper c (f ∷ rest) (chain more r) h)

    resumed :
        (g : Gen Choice) (more : Gen Allocation)
        → Follows (advance sc s later alloc g rest) more
        → Follows (turn sc (with_iterator g) rest) more
    unfolding turn visit iterator_of iterate
    resumed g more h = rw hopeful h

    advance-Follows :
        (g : Gen Choice)
        → Follows (advance sc s later alloc g rest) (chain (each g (body s later alloc)) r)
    unfolding advance follow each chain
    advance-Follows stop = below
    advance-Follows (fail e) = (zero, refl)
    advance-Follows (yield leaves g) =
        pushed-Follows (extend sc s.demand leaves alloc) (with_iterator g)
          (each g (body s later alloc))
          (turn-Runs (with_iterator g) rest _ (resumed g _ (advance-Follows g)))

    iterate-Follows :
        (o : Result (Option (Gen Choice)))
        → Follows
            (iterate sc s later alloc o rest)
            (chain (each (from_opened o) (body s later alloc)) r)
    unfolding iterate follow each chain
    iterate-Follows (err e) = (zero, refl)
    iterate-Follows (ok none) = below
    iterate-Follows (ok (some g)) = advance-Follows g

  gives-Follows :
      (alloc : Allocation) (rest : List Frame) (r : Gen Allocation)
      → Runs rest r
      → Follows (Move.gives alloc rest) (yield alloc r)
  unfolding follow then_yield
  gives-Follows alloc rest r (fuel, e) = (fuel, ap (then_yield alloc) e)

  -- A fresh frame above others yields what the recursion yields, and then what they yield.
  frame-Runs :
      (steps : List Step) (alloc : Allocation) (rest : List Frame) (r : Gen Allocation)
      → Runs rest r
      → Runs
          (record { steps = steps; allocation = alloc; iterator = none } ∷ rest)
          (chain (search sc steps alloc) r)
  unfolding search turn visit iterator_of follow chain
  frame-Runs [] alloc rest r below = elim (Bool-cases (hopeless sc [] alloc)) [
    | inl lost ↦ rw lost (turn-Runs _ rest r (rw lost below))
    | inr hopeful ↦ rw hopeful (turn-Runs _ rest _ (rw hopeful (gives-Follows alloc rest r below)))
  ]
  frame-Runs (s ∷ later) alloc rest r below = elim (Bool-cases (hopeless sc (s ∷ later) alloc)) [
    | inl lost ↦ rw lost (turn-Runs _ rest r (rw lost below))
    | inr hopeful ↦
        rw (hopeful, opened-options s.demand)
          (turn-Runs _ rest _ (
            rw hopeful (
              iterate-Follows s later alloc (λ c rest' r' h. frame-Runs later c rest' r' h) hopeful
                rest r below (opened sc s.demand))))
  ]

  no_frames : Runs [] stop
  unfolding run
  no_frames = (suc zero, refl)

abbrev Starts : Scope → Result (List Step) → Gen Allocation → Type 0
Starts sc steps g = (fuel : ℕ) × (started_loop sc fuel steps ≡ some g)

started-Starts :
    (sc : Scope) (steps : Result (List Step))
    → Starts sc steps (raising steps (λ ss. search sc ss []))
unfolding started_loop
started-Starts sc (err e) = (zero, refl)
started-Starts sc (ok steps) =
    subst (Runs sc (first_frame steps ∷ [])) (chain_stop (search sc steps []))
      (frame-Runs sc steps [] [] stop (no_frames sc))

planned-Starts :
    (sc : Scope) (specs : Result (List Demand)) (plan : List Demand → Result (List Step))
    → Starts sc (specs >>= plan) (raising specs (λ d. raising (plan d) (λ ss. search sc ss [])))
unfolding started_loop
planned-Starts sc (err e) plan = (zero, refl)
planned-Starts sc (ok d) plan = started-Starts sc (plan d)

-- The loop of `assignments` over its stack of frames ends, and yields the allocations, in the same
-- order and with the same exception behind them if there is one, that the depth-first recursion
-- yields.
pub assignments_loop-assignments :
    (sc : Scope) (needs : Json)
    → (fuel : ℕ) × (assignments_loop sc fuel needs ≡ some (assignments sc needs))
unfolding assignments_loop assignments
assignments_loop-assignments sc needs =
    planned-Starts sc (demands sc.registry needs) (λ d. plan_steps sc.registry d)
