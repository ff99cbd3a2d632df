-- ===== src/Lease/Stop/Ends.antt =====
-- stop_worker_tree returns.
use orchestrator_engine.Prelude.{
  ℕ, zero, suc, ◌+◌, ◌≤◌, ◌≡◌, refl, sym, ap, subst, inl, inr, Bool, true, false, not, ◌||◌, Option,
  none, some, arith, Bool-cases, leb, IsMonotone, monotone_later,
}
use orchestrator_engine.Json.{Json, Fields}
use orchestrator_engine.Lease.Identity.{at, is_int}
use orchestrator_engine.Lease.Process.{
  Liveness, Host, is_windows, is_state, is_token, is_foreign, process_identity, Verdict, judge,
  identity_state,
}
use orchestrator_engine.Lease.Stop.{
  Report, Run, monotonic, poll_until, wait_until_gone, escalate, terminate, after_kill, after_term,
  act_on, stop_worker_tree,
}

-- Looking at an identity takes no step back.
judge-step :
    (h : Host) (n : ℕ) (recorded : Fields) (o : Option Fields)
    → (k : ℕ) × ((judge h n recorded o).1 ≡ k + n)
unfolding judge
judge-step h n recorded none = (2, omega arith)
judge-step h n recorded (some observed) = (1, omega arith)

identity_state-step :
    (h : Host) (n : ℕ) (identity : Json) → (k : ℕ) × ((identity_state h n identity).1 ≡ k + n)
unfolding identity_state
identity_state-step h n (Json.obj recorded) =
    elim (Bool-cases (not h.supported || not (is_token h recorded))) [
      | inl unproved ↦ rw unproved (0, omega arith)
      | inr proved ↦ elim (Bool-cases (is_foreign h recorded)) [
        | inl foreign ↦ rw (proved, foreign) (0, omega arith)
        | inr local ↦
            rw (proved, local) (judge-step h n recorded (process_identity h n (at "pid" recorded)))
      ]
    ]
identity_state-step h n _ = (0, omega arith)

module _ (h : Host) (mono : IsMonotone h.clock) (identity : Json) where
  looked_later :
      (n : ℕ)
      → (h.clock n ≤ h.clock (identity_state h n identity).1)
        × (h.clock n ≤ h.clock (suc (identity_state h n identity).1))
  looked_later n =
      let (k, e) = identity_state-step h n identity in
      (
        subst (λ m. h.clock n ≤ h.clock m) (sym e) (monotone_later h.clock mono k n),
        subst (λ m. h.clock n ≤ h.clock m) (ap suc (sym e))
            (omega (arith, monotone_later h.clock mono k n, mono (k + n))),
      )

  abbrev Returns : {A : Type 0} → Option A → Type 0
  Returns {A} o = (x : A) × (o ≡ some x)

  -- Each round sleeps, so the time left shrinks.
  poll_until-Returns :
      (fuel deadline poll : ℕ) (r : Run)
      → 1 ≤ poll
      → deadline ≤ fuel + monotonic h r
      → Returns (poll_until h (suc fuel) identity deadline poll r)
  unfolding poll_until
  poll_until-Returns zero deadline poll r p enough =
      elim (Bool-cases (is_state (identity_state h r.step identity).0.state Liveness.gone)) [
        | inl gone ↦ rw gone (_, refl)
        | inr here ↦ rw (here, over) (_, refl)
      ]
    where
      over : leb deadline (h.clock (identity_state h r.step identity).1 + r.slept) ≡ true
      over = ground (arith, looked_later r.step)
  poll_until-Returns (suc fuel) deadline poll r p enough =
      elim (Bool-cases (is_state (identity_state h r.step identity).0.state Liveness.gone)) [
        | inl gone ↦ rw gone (_, refl)
        | inr here ↦
            elim (Bool-cases
              (leb deadline (h.clock (identity_state h r.step identity).1 + r.slept))) [
                | inl over ↦ rw (here, over) (_, refl)
                | inr early ↦
                    rw (here, early)
                      (poll_until-Returns fuel deadline poll
                        (record r {
                          step = suc (identity_state h r.step identity).1;
                          slept = r.slept + poll;
                        })
                        p left)
              ]
      ]
    where
      left :
          deadline
          ≤ fuel
            + monotonic h (record r {
              step = suc (identity_state h r.step identity).1;
              slept = r.slept + poll;
            })
      left = omega (arith, looked_later r.step)

  wait-Returns :
      (fuel timeout poll : ℕ) (r : Run)
      → 1 ≤ poll
      → timeout ≤ fuel
      → Returns (wait_until_gone h (suc fuel) identity timeout poll r)
  unfolding wait_until_gone
  wait-Returns fuel timeout poll r p enough =
      poll_until-Returns fuel _ poll (record r { step = suc r.step }) p (omega (arith, mono r.step))

  module _ (fuel : ℕ) (pid pgid : Json) (grace timeout poll : ℕ) (p : 1 ≤ poll) where
    after_kill-Returns : (o : Option (Bool × Run)) → Returns o → Returns (after_kill pid pgid o)
    unfolding after_kill
    after_kill-Returns none (x, e) = cc
    after_kill-Returns (some (b, r)) x = (_, refl)

    after_term-Returns :
        (o : Option (Bool × Run))
        → timeout ≤ fuel
        → Returns o
        → Returns (after_term h (suc fuel) pid pgid identity timeout poll o)
    unfolding after_term escalate
    after_term-Returns none enough (x, e) = cc
    after_term-Returns (some (true, r)) enough x = (_, refl)
    after_term-Returns (some (false, r)) enough x =
        after_kill-Returns _ (wait-Returns fuel timeout poll _ p enough)

    act_on-Returns :
        (st : Liveness) (v : Verdict) (n : ℕ)
        → grace ≤ fuel
        → timeout ≤ fuel
        → Returns (act_on h (suc fuel) pid pgid identity grace timeout poll st v n)
    unfolding act_on terminate
    act_on-Returns Liveness.unknown v n g t = (_, refl)
    act_on-Returns Liveness.gone v n g t = (_, refl)
    act_on-Returns Liveness.alive v n g t =
        after_term-Returns _ t (wait-Returns fuel grace poll _ p g)

-- On a host whose stat texts are UTF-8, where the clock never goes back and each poll sleeps for at
-- least a unit, stop_worker_tree returns a report: one more round than the longer of the two waits
-- has units is enough.
pub stop_worker_tree-returns :
    (h : Host) (fuel : ℕ) (pid pgid identity : Json) (grace timeout poll : ℕ)
    → IsMonotone h.clock
    → 1 ≤ poll
    → grace ≤ fuel
    → timeout ≤ fuel
    → (rep : Report) × (stop_worker_tree h (suc fuel) pid pgid identity grace timeout poll
        ≡ some rep)
unfolding stop_worker_tree
stop_worker_tree-returns h fuel pid pgid identity grace timeout poll mono p g t =
    elim (Bool-cases (is_int pid)) [
      | inr none_recorded ↦ rw none_recorded (_, refl)
      | inl recorded ↦ elim (Bool-cases (is_windows h.platform)) [
        | inl job ↦ rw (recorded, job) (_, refl)
        | inr posix ↦
            rw (recorded, posix)
              (act_on-Returns h mono identity fuel pid pgid grace timeout poll p _ _ _ g t)
      ]
    ]
