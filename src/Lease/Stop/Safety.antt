-- ===== src/Lease/Stop/Safety.antt =====
-- Which signals stop_worker_tree sends, and what its report proves.
use orchestrator_engine.Prelude.{
  ℕ, zero, suc, ◌+◌, ◌≡◌, refl, sym, subst, inl, inr, Bool, true, false, Option, none, some, List,
  arith, All, All-snoc, Bool-cases, eq_of_some,
}
use orchestrator_engine.Json.{Json, Fields}
use orchestrator_engine.Lease.Identity.{is_int}
use orchestrator_engine.Lease.Process.{
  Liveness, Host, is_windows, process_identity, Verdict, identity_state,
}
use orchestrator_engine.Lease.Stop.{
  Signal, Sent, Report, Run, poll_until, wait_until_gone, is_matched, deliver, stopped, escalate,
  terminate, after_kill, after_term, refused, exited_before, act_on, stop_worker_tree,
}

-- Right before the kill, the process under that pid was looked at, and was the recorded one.
abbrev pub IsJustified : Host → Json → Json → Sent → Type 0
IsJustified h pid identity s =
    (n : ℕ) × (s.step ≡ suc n) × (is_matched identity (process_identity h n pid) ≡ true)

-- Waiting sends nothing.
pub poll_until-sent :
    (h : Host) (fuel : ℕ) (identity : Json) (deadline poll : ℕ) (r r' : Run) (b : Bool)
    → poll_until h fuel identity deadline poll r ≡ some (b, r')
    → r'.sent ≡ r.sent
unfolding poll_until
poll_until-sent h zero identity deadline poll r r' b e = cc
poll_until-sent h (suc fuel) identity deadline poll r r' b e = ground (
  arith,
  poll_until-sent h fuel identity deadline poll
      (record r { step = suc (identity_state h r.step identity).1; slept = r.slept + poll }) r' b,
)

module _ (h : Host) (fuel : ℕ) (pid pgid identity : Json) where
  deliver-IsJustified :
      (s : Signal) (r : Run)
      → All (IsJustified h pid identity) r.sent
      → All (IsJustified h pid identity) (deliver h pid pgid identity s r).sent
  unfolding deliver
  deliver-IsJustified s r j =
      elim (Bool-cases (is_matched identity (process_identity h r.step pid))) [
        | inr other ↦ rw other j
        | inl same ↦ elim (Bool-cases (h.refuses (suc r.step))) [
          | inl raised ↦ rw (same, raised) j
          | inr done ↦
              rw (same, done)
                (All-snoc (IsJustified h pid identity) r.sent _ j (r.step, refl, same))
        ]
      ]

  wait-IsJustified :
      (s : Signal) (timeout poll : ℕ) (r r' : Run) (b : Bool)
      → All (IsJustified h pid identity) r.sent
      → wait_until_gone h fuel identity timeout poll (deliver h pid pgid identity s r)
        ≡ some (b, r')
      → All (IsJustified h pid identity) r'.sent
  unfolding wait_until_gone
  wait-IsJustified s timeout poll r r' b j e =
      subst (All (IsJustified h pid identity))
        (sym (poll_until-sent h fuel identity _ poll _ r' b e)) (deliver-IsJustified s r j)

  -- What holds of the signals behind a wait holds of those in the report.
  after_kill-signals :
      (P : List Sent → Type 0) (o : Option (Bool × Run)) (rep : Report)
      → ((b : Bool) (r' : Run) → o ≡ some (b, r') → P r'.sent)
      → after_kill pid pgid o ≡ some rep
      → P rep.signals
  unfolding after_kill stopped
  after_kill-signals P none rep k e = cc
  after_kill-signals P (some (b, r')) rep k e =
      subst (λ (x : Report). P x.signals) (eq_of_some e) (k b r' refl)

  escalate-IsJustified :
      (timeout poll : ℕ) (r : Run) (rep : Report)
      → All (IsJustified h pid identity) r.sent
      → escalate h fuel pid pgid identity timeout poll r ≡ some rep
      → All (IsJustified h pid identity) rep.signals
  unfolding escalate
  escalate-IsJustified timeout poll r rep j e =
      after_kill-signals (All (IsJustified h pid identity)) _ rep
        (λ b r' w. wait-IsJustified Signal.sigkill timeout poll r r' b j w) e

  after_term-IsJustified :
      (timeout poll : ℕ) (o : Option (Bool × Run)) (rep : Report)
      → ((b : Bool) (r' : Run) → o ≡ some (b, r') → All (IsJustified h pid identity) r'.sent)
      → after_term h fuel pid pgid identity timeout poll o ≡ some rep
      → All (IsJustified h pid identity) rep.signals
  unfolding after_term stopped
  after_term-IsJustified timeout poll none rep k e = cc
  after_term-IsJustified timeout poll (some (true, r')) rep k e =
      subst (λ (x : Report). All (IsJustified h pid identity) x.signals) (eq_of_some e)
        (k true r' refl)
  after_term-IsJustified timeout poll (some (false, r')) rep k e =
      escalate-IsJustified timeout poll r' rep (k false r' refl) e

  act_on-IsJustified :
      (grace timeout poll : ℕ) (st : Liveness) (v : Verdict) (n : ℕ) (rep : Report)
      → act_on h fuel pid pgid identity grace timeout poll st v n ≡ some rep
      → All (IsJustified h pid identity) rep.signals
  unfolding act_on refused exited_before terminate
  act_on-IsJustified grace timeout poll Liveness.unknown v n rep e =
      subst (λ (x : Report). All (IsJustified h pid identity) x.signals) (eq_of_some e) tt
  act_on-IsJustified grace timeout poll Liveness.gone v n rep e =
      subst (λ (x : Report). All (IsJustified h pid identity) x.signals) (eq_of_some e)
        (exited_before-signals v.observed)
    where
      exited_before-signals :
          (o : Option Fields) → All (IsJustified h pid identity) (exited_before o).signals
      exited_before-signals none = tt
      exited_before-signals (some seen) = tt
  act_on-IsJustified grace timeout poll Liveness.alive v n rep e =
      after_term-IsJustified timeout poll _ rep
        (λ b r' w. wait-IsJustified Signal.sigterm grace poll _ r' b tt w) e

-- On a POSIX host, each signal that stop_worker_tree sends is sent at the step right behind a look
-- at the worker's pid that found the very process of the recorded identity there.
pub stop_worker_tree-IsJustified :
    (h : Host) (fuel : ℕ) (pid pgid identity : Json) (grace timeout poll : ℕ) (rep : Report)
    → is_windows h.platform ≡ false
    → stop_worker_tree h fuel pid pgid identity grace timeout poll ≡ some rep
    → All (IsJustified h pid identity) rep.signals
unfolding stop_worker_tree
stop_worker_tree-IsJustified h fuel pid pgid identity grace timeout poll rep posix e =
    elim (Bool-cases (is_int pid)) [
      | inr none_recorded ↦
          subst (λ (x : Report). All (IsJustified h pid identity) x.signals)
            (eq_of_some (rw none_recorded at e)) tt
      | inl recorded ↦
          act_on-IsJustified h fuel pid pgid identity grace timeout poll _ _ _ rep
            (rw (recorded, posix) at e)
    ]
