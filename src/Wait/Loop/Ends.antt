-- ===== src/Wait/Loop/Ends.antt =====
-- wait_for_operations ends by its deadline.
use orchestrator_engine.Prelude.{
  ℕ, zero, suc, ◌+◌, ◌≤◌, String, ◌≡◌, refl, subst, inl, inr, false, ◌||◌, Option, some, List, [],
  arith, length, Bool-cases, IsMonotone, monotone_later,
}
use orchestrator_engine.Result.{Result, ok, err, guard, >>=-eq-ok, guard-eq-ok, bad_interval}
use orchestrator_engine.Wait.Targets.{validate_targets}
use orchestrator_engine.Wait.Snapshot.{Reports}
use orchestrator_engine.Wait.Summary.{Report}
use orchestrator_engine.Wait.Loop.{
  Ended, is_ending, is_over, sleep_for, round, or_raised, poll, deadline_of, is_positive,
  check_arguments, checked, wait_for_operations,
}

abbrev Returns : Option (Result Ended) → Type 0
Returns o = (x : Result Ended) × (o ≡ some x)

or_raised-Returns :
    (o : Result Report) (k : Report → Option (Result Ended))
    → ((rep : Report) → Returns (k rep))
    → Returns (or_raised o k)
unfolding or_raised
or_raised-Returns (ok rep) k h = h rep
or_raised-Returns (err e) k h = (err e, refl)

checked-Returns :
    (r : Result (Unit {0})) (run : Option (Result Ended)) → Returns run → Returns (checked r run)
unfolding checked
checked-Returns (err e) run h = (err e, refl)
checked-Returns (ok u) run h = h

round-Returns :
    (h : Reports) (n : ℕ) (deadline : Option ℕ) (now : ℕ) (rep : Report) (updates : List Report)
    (rest : Option (Result Ended))
    → (is_over deadline now ≡ false → Returns rest)
    → Returns (round h n deadline now rep updates rest)
unfolding round
round-Returns h n deadline now rep updates rest k =
    elim (Bool-cases (rep.condition_met || is_ending rep.wait_status)) [
      | inl met ↦ rw met (_, refl)
      | inr unmet ↦ elim (Bool-cases (is_over deadline now)) [
        | inl over ↦ rw (unmet, over) (checked-Returns (h.on_update (suc n)) _ (_, refl))
        | inr early ↦ rw (unmet, early) (k early)
      ]
    ]

early-lt : (deadline now : ℕ) → is_over (some deadline) now ≡ false → suc now ≤ deadline
unfolding is_over
early-lt deadline now early = ground arith

-- A sleep before the deadline is at least a unit.
sleep_some :
    (interval deadline now : ℕ)
    → 1 ≤ interval
    → suc now ≤ deadline
    → 1 ≤ sleep_for interval (some deadline) now
unfolding sleep_for
sleep_some interval deadline now p early = ground arith

module _ (h : Reports) (mono : IsMonotone h.clock) (targets : List String) (mode : String)
    (interval deadline started : ℕ) (p : 1 ≤ interval) where
  later :
      (n : ℕ)
      → (h.clock n ≤ h.clock (n + length targets))
        × (h.clock (n + length targets) ≤ h.clock (suc (n + length targets)))
  later n =
      let e : length targets + n ≡ n + length targets = omega arith in
      (
        subst (λ m. h.clock n ≤ h.clock m) e (monotone_later h.clock mono (length targets) n),
        mono (n + length targets),
      )

  poll-Returns :
      (fuel n slept : ℕ) (updates : List Report)
      → deadline ≤ fuel + (h.clock n + slept)
      → Returns (poll h (suc fuel) targets mode interval (some deadline) started n slept updates)
  unfolding poll
  poll-Returns zero n slept updates enough =
      or_raised-Returns _ _
        (λ rep. checked-Returns _ _ (round-Returns h _ _ _ _ _ _ (λ early. absurd (no_time early))))
    where
      no_time : is_over (some deadline) (h.clock (n + length targets) + slept) ≡ false → ⊥
      no_time early = omega (arith, later n, enough, early-lt deadline _ early)
  poll-Returns (suc fuel) n slept updates enough = or_raised-Returns _ _ (λ rep.
      checked-Returns _ _ (
        round-Returns h _ _ _ _ _ _
          (λ early. checked-Returns _ _ (poll-Returns fuel _ _ _ (left early)))))
    where
      left :
          is_over (some deadline) (h.clock (n + length targets) + slept) ≡ false
          → deadline
            ≤ fuel
              + (h.clock (suc (n + length targets))
                  + (slept
                      + sleep_for interval (some deadline) (h.clock (n + length targets) + slept)))
      left early =
          omega
            (arith, later n, enough, sleep_some interval deadline _ p (early-lt deadline _ early))

interval_some :
    (targets : List String) (mode : String) (interval : ℕ) (timeout : Option ℕ) (stale : ℕ)
    → check_arguments targets mode interval timeout stale ≡ ok tt
    → 1 ≤ interval
unfolding check_arguments is_positive
interval_some targets mode interval timeout stale e =
    let (u, valid, e) = >>=-eq-ok (validate_targets targets mode) _ e in
    let (u, some_units, e) = >>=-eq-ok (guard (is_positive interval) bad_interval) _ e in
    let positive = guard-eq-ok _ _ some_units in ground arith

-- Where the clock never goes back, a wait with a timeout ends, with a report or with an exception:
-- one more round than the timeout has units is enough.
pub wait_for_operations-returns :
    (h : Reports) (fuel : ℕ) (targets : List String) (mode : String) (interval timeout stale : ℕ)
    → IsMonotone h.clock
    → timeout ≤ fuel
    → (x : Result Ended) × (wait_for_operations h
          (suc fuel)
          targets
          mode
          interval
          (some timeout)
          stale
        ≡ some x)
unfolding wait_for_operations checked deadline_of
wait_for_operations-returns h fuel targets mode interval timeout stale mono enough =
    go (check_arguments targets mode interval (some timeout) stale) refl
  where
    go :
        (r : Result (Unit {0}))
        → check_arguments targets mode interval (some timeout) stale ≡ r
        → Returns (
            checked r (
              poll h
                (suc fuel)
                targets
                mode
                interval
                (some (h.clock 0 + timeout))
                (h.clock 0)
                1
                0
                []))
    go (err e) q = (err e, refl)
    go (ok tt) q =
        poll-Returns h mono targets mode interval (h.clock 0 + timeout) (h.clock 0)
          (interval_some targets mode interval (some timeout) stale q) fuel 1 0 []
          (omega (arith, mono 0, enough))
