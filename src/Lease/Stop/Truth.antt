-- ===== src/Lease/Stop/Truth.antt =====
-- The outcome that stop_worker_tree reports is true.
use orchestrator_engine.Prelude.{
  ℕ, zero, suc, String, ◌+◌, ◌≡◌, refl, subst, inl, inr, Bool, true, false, Option, none, some, [],
  arith, Bool-cases, eq_of_some, leb,
}
use orchestrator_engine.Json.{Json, Fields}
use orchestrator_engine.Lease.Identity.{is_int}
use orchestrator_engine.Lease.Process.{
  Liveness, Host, is_windows, is_state, Verdict, identity_state,
}
use orchestrator_engine.Lease.Stop.{
  Outcome, Report, Run, poll_until, wait_until_gone, stopped, escalate, terminate, after_kill,
  after_term, refused, exited_before, act_on, stop_worker_tree, is_unavailable,
}

-- At some step the recorded process was gone.
abbrev pub WasGone : Host → Json → Type 0
WasGone h identity = (n : ℕ) × ((identity_state h n identity).0.state ≡ Liveness.gone)

-- What each outcome says.
abbrev pub Means : Host → Json → Outcome → Report → Type 0
Means h identity Outcome.killed rep =
    (rep.exited ≡ true) × (rep.escalated ≡ true) × WasGone h identity
Means h identity Outcome.stopped_on_sigterm rep =
    (rep.exited ≡ true) × (rep.escalated ≡ false) × WasGone h identity
Means h identity Outcome.already_exited rep =
    (rep.exited ≡ true) × (rep.signals ≡ []) × WasGone h identity
Means h identity Outcome.refused_identity_mismatch rep =
    (rep.exited ≡ true) × (rep.signals ≡ []) × WasGone h identity
Means h identity Outcome.kill_not_confirmed rep =
    (rep.exited ≡ false) × (rep.escalated ≡ true) × (rep.verified ≡ true)
Means h identity _ rep = (rep.signals ≡ []) × (rep.verified ≡ false)

is_state-eq : (a b : Liveness) → is_state a b ≡ true → a ≡ b
unfolding is_state
is_state-eq a b e = ground arith

poll_until-gone :
    (h : Host) (fuel : ℕ) (identity : Json) (deadline poll : ℕ) (r r' : Run)
    → poll_until h fuel identity deadline poll r ≡ some (true, r')
    → WasGone h identity
unfolding poll_until
poll_until-gone h zero identity deadline poll r r' e = cc
poll_until-gone h (suc fuel) identity deadline poll r r' e =
    elim (Bool-cases (is_state (identity_state h r.step identity).0.state Liveness.gone)) [
      | inl gone ↦ (r.step, is_state-eq _ _ gone)
      | inr here ↦
          elim (Bool-cases
            (leb deadline (h.clock (identity_state h r.step identity).1 + r.slept))) [
              | inl over ↦ absurd (true-false (rw (here, over) at e))
              | inr early ↦
                  poll_until-gone h fuel identity deadline poll _ r' (rw (here, early) at e)
            ]
    ]
  where
    true-false : {x : Run} → ◌≡◌ {A = Option (Bool × Run)} (some (false, x)) (some (true, r')) → ⊥
    true-false q = cc

module _ (h : Host) (fuel : ℕ) (pid pgid identity : Json) where
  after_kill-Means :
      (o : Option (Bool × Run)) (rep : Report)
      → ((r : Run) → o ≡ some (true, r) → WasGone h identity)
      → after_kill pid pgid o ≡ some rep
      → Means h identity rep.outcome rep
  unfolding after_kill stopped
  after_kill-Means none rep k e = cc
  after_kill-Means (some (true, r)) rep k e =
      subst (λ (x : Report). Means h identity x.outcome x) (eq_of_some e) (refl, refl, k r refl)
  after_kill-Means (some (false, r)) rep k e =
      subst (λ (x : Report). Means h identity x.outcome x) (eq_of_some e) (refl, refl, refl)

  after_term-Means :
      (timeout poll : ℕ) (o : Option (Bool × Run)) (rep : Report)
      → ((r : Run) → o ≡ some (true, r) → WasGone h identity)
      → after_term h fuel pid pgid identity timeout poll o ≡ some rep
      → Means h identity rep.outcome rep
  unfolding after_term escalate stopped wait_until_gone
  after_term-Means timeout poll none rep k e = cc
  after_term-Means timeout poll (some (true, r)) rep k e =
      subst (λ (x : Report). Means h identity x.outcome x) (eq_of_some e) (refl, refl, k r refl)
  after_term-Means timeout poll (some (false, r)) rep k e =
      after_kill-Means _ rep (λ r' w. poll_until-gone h fuel identity _ poll _ r' w) e

  refused-Means :
      (n : ℕ) (reason : Option String)
      → Means h identity (refused h n pid reason).outcome (refused h n pid reason)
  unfolding refused
  refused-Means n reason = elim (Bool-cases (is_unavailable reason)) [
    | inl out ↦ rw out (refl, refl)
    | inr token ↦ rw token (refl, refl)
  ]

  exited_before-Means :
      (o : Option Fields)
      → WasGone h identity
      → Means h identity (exited_before o).outcome (exited_before o)
  unfolding exited_before
  exited_before-Means none gone = (refl, refl, gone)
  exited_before-Means (some seen) gone = (refl, refl, gone)

  act_on-Means :
      (grace timeout poll : ℕ) (st : Liveness) (v : Verdict) (n : ℕ) (rep : Report)
      → (st ≡ Liveness.gone → WasGone h identity)
      → act_on h fuel pid pgid identity grace timeout poll st v n ≡ some rep
      → Means h identity rep.outcome rep
  unfolding act_on terminate wait_until_gone
  act_on-Means grace timeout poll Liveness.unknown v n rep k e =
      subst (λ (x : Report). Means h identity x.outcome x) (eq_of_some e) (refused-Means n v.reason)
  act_on-Means grace timeout poll Liveness.gone v n rep k e =
      subst (λ (x : Report). Means h identity x.outcome x) (eq_of_some e)
        (exited_before-Means v.observed (k refl))
  act_on-Means grace timeout poll Liveness.alive v n rep k e =
      after_term-Means timeout poll _ rep (λ r' w. poll_until-gone h fuel identity _ poll _ r' w) e

-- On a POSIX host the outcome in the report is true. An outcome that says that the worker has
-- exited comes with a step at which its recorded process was gone; `killed` and
-- `kill_not_confirmed` come behind the escalation alone; and a refusal comes with no signal.
pub stop_worker_tree-Means :
    (h : Host) (fuel : ℕ) (pid pgid identity : Json) (grace timeout poll : ℕ) (rep : Report)
    → is_windows h.platform ≡ false
    → stop_worker_tree h fuel pid pgid identity grace timeout poll ≡ some rep
    → Means h identity rep.outcome rep
unfolding stop_worker_tree
stop_worker_tree-Means h fuel pid pgid identity grace timeout poll rep posix e =
    elim (Bool-cases (is_int pid)) [
      | inr none_recorded ↦
          subst (λ (x : Report). Means h identity x.outcome x) (eq_of_some (rw none_recorded at e))
            (refl, refl)
      | inl recorded ↦
          act_on-Means h fuel pid pgid identity grace timeout poll _ _ _ rep (λ gone. (0, gone))
            (rw (recorded, posix) at e)
    ]
