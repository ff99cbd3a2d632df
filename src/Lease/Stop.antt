-- ===== src/Lease/Stop.antt =====
-- worker_lease.py: stop_worker_tree and wait_until_gone. Times are whole units of the clock.
pub mod Safety
pub mod Ends
pub mod Truth
use orchestrator_engine.Prelude.{
  ℕ, zero, suc, ◌+◌, String, Bool, true, false, not, ◌&&◌, ◌||◌, Option, none, some, List, [], ◌∷◌,
  ◌++◌, leb, ◌==◌, if◌then◌else◌,
}
use orchestrator_engine.Json
use orchestrator_engine.Json.{Json, Fields}
use orchestrator_engine.Lease.Identity.{at, is_int, identity_matches}
use orchestrator_engine.Lease.Process.{
  Platform, Liveness, Host, is_windows, is_state, process_identity, Verdict, identity_state,
  pid_state,
}

pub data Signal : Type 0 where
  sigterm sigkill terminate_job : Signal

pub data Outcome : Type 0 where
  no_worker_recorded refused_no_identity_token refused_job_unavailable : Outcome
  refused_identity_unavailable refused_identity_mismatch already_exited : Outcome
  job_terminated stopped_on_sigterm killed kill_not_confirmed : Outcome

-- An entry of "signals": the step at which the kill was made, and whether a group was its target.
pub record Sent : Type 0 where
  pub signal : Signal
  pub to_group : Bool
  pub step : ℕ

pub data Scope : Type 0 where
  process process_group job_object : Scope

-- The dict that stop_worker_tree returns, less the parts that copy its arguments.
pub record Report : Type 0 where
  pub scope : Scope
  pub escalated : Bool
  pub exited : Bool
  pub verified : Bool
  pub signals : List Sent
  pub outcome : Outcome

-- The step, the time slept so far, and the signals sent.
pub record Run : Type 0 where
  pub step : ℕ
  pub slept : ℕ
  pub sent : List Sent

abbrev pub monotonic : Host → Run → ℕ
monotonic h r = h.clock r.step + r.slept

-- The loop of wait_until_gone, on fuel.
unfoldable pub poll_until : Host → ℕ → Json → (deadline poll : ℕ) → Run → Option (Bool × Run)
poll_until h zero identity deadline poll r = none
poll_until h (suc fuel) identity deadline poll r =
    let (v, n) = identity_state h r.step identity in
    let looked = record r { step = n } in
    let rest =
      poll_until h fuel identity deadline poll
        (record r { step = suc n; slept = r.slept + poll }) in
    if is_state v.state Liveness.gone
    then some (true, looked)
    else if leb deadline (monotonic h looked)
    then some (false, record r { step = suc n })
    else rest

unfoldable pub wait_until_gone : Host → ℕ → Json → (timeout poll : ℕ) → Run → Option (Bool × Run)
wait_until_gone h fuel identity timeout poll r =
    poll_until h fuel identity (monotonic h r + timeout) poll (record r { step = suc r.step })

-- `deliver`: the identity is compared again, and the kill follows at the next step.
unfoldable pub is_matched : Json → Option Fields → Bool
is_matched identity none = false
is_matched identity (some observed) = identity_matches identity (Json.obj observed)

-- Whether the group is signalled: one that the worker leads itself.
unfoldable pub leads : (pid pgid : Json) → Bool
leads pid pgid = Json.eq pgid pid

unfoldable pub scope_of : (pid pgid : Json) → Scope
scope_of pid pgid = if leads pid pgid && is_int pgid then Scope.process_group else Scope.process

unfoldable pub deliver : Host → (pid pgid identity : Json) → Signal → Run → Run
deliver h pid pgid identity signal r =
    let killing = suc r.step in
    if not (is_matched identity (process_identity h r.step pid))
    then record r { step = killing }
    else if h.refuses killing
    then record r { step = suc killing }
    else record r {
      step = suc killing;
      sent = r.sent ++ record { signal = signal; to_group = leads pid pgid; step = killing } ∷ [];
    }

abbrev pub refusal : Outcome → (exited : Bool) → Report
refusal outcome exited = record {
  scope = Scope.process;
  escalated = false;
  exited = exited;
  verified = false;
  signals = [];
  outcome = outcome;
}

unfoldable pub stopped : Scope → (escalated exited : Bool) → Outcome → Run → Report
stopped scope escalated exited outcome r = record {
  scope = scope;
  escalated = escalated;
  exited = exited;
  verified = true;
  signals = r.sent;
  outcome = outcome;
}

-- Behind the wait that follows SIGKILL.
unfoldable pub after_kill : (pid pgid : Json) → Option (Bool × Run) → Option Report
after_kill pid pgid none = none
after_kill pid pgid (some (exited, r)) = some (
    stopped (scope_of pid pgid) true exited
      (if exited then Outcome.killed else Outcome.kill_not_confirmed) r)

-- From SIGKILL on.
unfoldable pub escalate :
    Host → ℕ → (pid pgid identity : Json) → (timeout poll : ℕ) → Run → Option Report
escalate h fuel pid pgid identity timeout poll r =
    after_kill pid pgid
      (wait_until_gone h fuel identity timeout poll (deliver h pid pgid identity Signal.sigkill r))

-- Behind the wait that follows SIGTERM.
unfoldable pub after_term :
    Host → ℕ → (pid pgid identity : Json) → (timeout poll : ℕ) → Option (Bool × Run) → Option Report
after_term h fuel pid pgid identity timeout poll none = none
after_term h fuel pid pgid identity timeout poll (some (true, r)) =
    some (stopped (scope_of pid pgid) false true Outcome.stopped_on_sigterm r)
after_term h fuel pid pgid identity timeout poll (some (false, r)) =
    escalate h fuel pid pgid identity timeout poll r

-- From SIGTERM on: the recorded worker was seen alive.
unfoldable pub terminate :
    Host → ℕ → (pid pgid identity : Json) → (grace timeout poll : ℕ) → Run → Option Report
terminate h fuel pid pgid identity grace timeout poll r =
    after_term h fuel pid pgid identity timeout poll
      (wait_until_gone h fuel identity grace poll (deliver h pid pgid identity Signal.sigterm r))

unfoldable pub is_unavailable : Option String → Bool
is_unavailable none = false
is_unavailable (some reason) = reason == "process_identity_unavailable"

unfoldable pub refused : Host → ℕ → (pid : Json) → Option String → Report
refused h n pid reason =
    refusal
      (if is_unavailable reason
        then Outcome.refused_identity_unavailable
        else Outcome.refused_no_identity_token)
      (is_state (pid_state h n pid).0.state Liveness.gone)

unfoldable pub exited_before : Option Fields → Report
exited_before (some seen) = refusal Outcome.refused_identity_mismatch true
exited_before none = refusal Outcome.already_exited true

-- What the verdict on the recorded identity leads to.
unfoldable pub act_on :
    Host
    → ℕ
    → (pid pgid identity : Json) → (grace timeout poll : ℕ) → Liveness
    → Verdict
    → ℕ
    → Option Report
act_on h fuel pid pgid identity grace timeout poll Liveness.unknown v n =
    some (refused h n pid v.reason)
act_on h fuel pid pgid identity grace timeout poll Liveness.gone v n =
    some (exited_before v.observed)
act_on h fuel pid pgid identity grace timeout poll Liveness.alive v n =
    terminate h fuel pid pgid identity grace timeout poll
      (record { step = n; slept = 0; sent = [] })

-- The branch of Windows.
unfoldable pub has_pid : (pid identity : Json) → Bool
has_pid pid (Json.obj identity) = Json.eq (at "pid" identity) pid
has_pid pid _ = false

unfoldable pub stop_job : Host → (pid pgid identity : Json) → Report
stop_job h pid pgid identity =
    if not (has_pid pid identity) || not (Json.eq pgid pid)
    then refusal Outcome.refused_no_identity_token false
    else elim (h.end_job 0) [
      | none ↦ refusal Outcome.refused_job_unavailable false
      | some exited ↦
          stopped Scope.job_object false exited
            (if exited then Outcome.job_terminated else Outcome.kill_not_confirmed)
            (record {
              step = 1;
              slept = 0;
              sent = record { signal = Signal.terminate_job; to_group = true; step = 0 } ∷ [];
            })
    ]

unfoldable pub stop_worker_tree :
    Host → ℕ → (pid pgid identity : Json) → (grace timeout poll : ℕ) → Option Report
stop_worker_tree h fuel pid pgid identity grace timeout poll =
    if not (is_int pid)
    then some (refusal Outcome.no_worker_recorded true)
    else if is_windows h.platform
    then some (stop_job h pid pgid identity)
    else (let (v, n) = identity_state h 0 identity in
        act_on h fuel pid pgid identity grace timeout poll v.state v n)
