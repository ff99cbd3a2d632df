-- ===== src/Wait/Loop/Truth.antt =====
-- What wait_for_operations returns is what the operations are.
use orchestrator_engine.Prelude.{
  length, ℕ, zero, suc, ◌+◌, ◌-◌, ◌≤◌, String, ◌≡◌, refl, ap, subst, ◌⊎◌, inl, inr, Bool, true,
  false, ◌||◌, Option, none, some, List, [], ◌∷◌, ◌++◌, arith, Bool-cases, eq_of_some,
}
use orchestrator_engine.Result.{Result, ok, err, eq_of_ok}
use orchestrator_engine.Wait.Snapshot.{Reports}
use orchestrator_engine.Wait.Summary.{Status, WaitStatus, Report, operation_wait_snapshot}
use orchestrator_engine.Wait.Summary.Means.{Says, operation_wait_snapshot-Says}
use orchestrator_engine.Wait.Loop.{
  Ended, is_ending, is_over, with_waited, round, or_raised, poll, deadline_of, check_arguments,
  checked, wait_for_operations,
}

-- The statuses that end a wait before its deadline.
abbrev pub is_final : WaitStatus → Bool
is_final WaitStatus.condition_met = true
is_final WaitStatus.action_required = true
is_final _ = false

-- The report of a look at all the targets, at some step.
abbrev pub IsLook : Reports → List String → String → Report → Type 0
IsLook h targets mode rep =
    (n : ℕ) × (looked : Report) × (waited : ℕ) × (operation_wait_snapshot h n targets mode
      ≡ ok looked)
    × (rep ≡ with_waited waited looked)

abbrev pub HasTimedOut : Option ℕ → Report → Type 0
HasTimedOut timeout rep =
    (limit : ℕ) × (waited : ℕ) × (timeout ≡ some limit)
    × (rep.wait_status ≡ WaitStatus.timed_out)
    × (rep.waited_seconds ≡ some waited)
    × (limit ≤ waited)

abbrev pub IsEnd : Reports → List String → String → Option ℕ → Report → List Report → Type 0
IsEnd h targets mode timeout rep updates =
    ((before : List Report) × (updates ≡ before ++ rep ∷ []))
    × ((IsLook h targets mode rep × (is_final rep.wait_status ≡ true)) ⊎ HasTimedOut timeout rep)

or_raised-ok :
    (o : Result Report) (k : Report → Option (Result Ended)) (x : Ended)
    → or_raised o k ≡ some (ok x)
    → (rep : Report) × (o ≡ ok rep) × (k rep ≡ some (ok x))
unfolding or_raised
or_raised-ok (ok rep) k x e = (rep, refl, e)
or_raised-ok (err r) k x e = cc

checked-ok :
    (r : Result (Unit {0})) (run : Option (Result Ended)) (x : Ended)
    → checked r run ≡ some (ok x)
    → run ≡ some (ok x)
unfolding checked
checked-ok (ok tt) run x e = e
checked-ok (err r) run x e = cc

eq_of_end : {x y : Ended} → ◌≡◌ {A = Option (Result Ended)} (some (ok x)) (some (ok y)) → x ≡ y
eq_of_end e = eq_of_ok (eq_of_some e)

-- A report that ends the loop early has a final status.
Says-final :
    (st : Status) (rep : Report)
    → Says st rep
    → rep.condition_met || is_ending rep.wait_status ≡ true
    → is_final rep.wait_status ≡ true
unfolding is_ending
Says-final Status.action_required rep (w, _) h = rw w refl
Says-final Status.unsuccessful rep (w, _, _, _) h = rw w refl
Says-final Status.completed rep (w, _, _, _) h = rw w refl
Says-final Status.waiting rep (w, c, _, _, _, _) h = absurd (cc (rw (w, c) at h))

over_limit :
    (timeout : Option ℕ) (started now : ℕ)
    → is_over (deadline_of timeout started) now ≡ true
    → (limit : ℕ) × (timeout ≡ some limit) × (limit ≤ now - started)
unfolding is_over deadline_of
over_limit none started now h = cc
over_limit (some limit) started now h = (limit, refl, ground arith)

abbrev append_two : (xs : List Report) (x y : Report) → xs ++ x ∷ y ∷ [] ≡ (xs ++ x ∷ []) ++ y ∷ []
append_two [] x y = refl
append_two (z ∷ xs) x y = ap (◌∷◌ z) (append_two xs x y)

module _ (h : Reports) (targets : List String) (mode : String) (timeout : Option ℕ)
    (interval : ℕ) where
  abbrev End : Ended → Type 0
  End (rep, updates) = IsEnd h targets mode timeout rep updates

  round-End :
      (started now n : ℕ) (looked : Report) (updates : List Report) (rest : Option (Result Ended))
      (x : Ended)
      → operation_wait_snapshot h n targets mode ≡ ok looked
      → (rest ≡ some (ok x) → End x)
      → round h
          (n + length targets)
          (deadline_of timeout started)
          now
          (with_waited (now - started) looked)
          updates
          rest
        ≡ some (ok x)
      → End x
  unfolding round
  round-End started now n looked updates rest x seen k e =
      elim (Bool-cases (looked.condition_met || is_ending looked.wait_status)) [
        | inl met ↦
            let (count, split, says) = operation_wait_snapshot-Says h n targets mode looked seen in
            subst End (eq_of_end (rw met at e)) (
              (updates, refl),
              inl (
                (n, looked, now - started, seen, refl),
                Says-final looked.status looked says met,
              ),
            )
        | inr unmet ↦ elim (Bool-cases (is_over (deadline_of timeout started) now)) [
          | inl over ↦
              let (limit, given, long) = over_limit timeout started now over in
              subst End (eq_of_end (checked-ok (h.on_update _) _ x (rw (unmet, over) at e)))
                ((_, append_two updates _ _), inr (limit, now - started, given, refl, refl, long))
          | inr early ↦ k (rw (unmet, early) at e)
        ]
      ]

  poll-End :
      (fuel started n slept : ℕ) (updates : List Report) (x : Ended)
      → poll h fuel targets mode interval (deadline_of timeout started) started n slept updates
        ≡ some (ok x)
      → End x
  unfolding poll
  poll-End zero started n slept updates x e = cc
  poll-End (suc fuel) started n slept updates x e =
      let (looked, seen, e) = or_raised-ok _ _ x e in
      round-End started _ n looked updates _ x seen
        (λ later. poll-End fuel started _ _ _ x (checked-ok (h.sleeper _) _ x later))
        (checked-ok (h.on_update _) _ x e)

-- A report that wait_for_operations returns is the last that the listener was given, and either it
-- is that of a look at the targets, whose condition is met or which asks for action, or there is a
-- timeout and the wait took at least that long.
pub wait_for_operations-IsEnd :
    (h : Reports) (fuel : ℕ) (targets : List String) (mode : String) (interval : ℕ)
    (timeout : Option ℕ) (stale : ℕ) (rep : Report) (updates : List Report)
    → wait_for_operations h fuel targets mode interval timeout stale ≡ some (ok (rep, updates))
    → IsEnd h targets mode timeout rep updates
unfolding wait_for_operations
wait_for_operations-IsEnd h fuel targets mode interval timeout stale rep updates e =
    poll-End h targets mode timeout interval fuel (h.clock 0) 1 0 [] (rep, updates)
      (checked-ok (check_arguments targets mode interval timeout stale) _ _ e)
