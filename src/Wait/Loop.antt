-- ===== src/Wait/Loop.antt =====
-- operation_wait.py: wait_for_operations. Times are whole units of the clock; the listener is the
-- list of the reports that it is called with. Both the listener and the sleep may raise.
pub mod Ends
pub mod Truth
use orchestrator_engine.Prelude.{
  min, ℕ, zero, suc, ◌+◌, ◌-◌, String, Bool, true, false, ◌||◌, Option, none, some, List, [], ◌∷◌,
  ◌++◌, length, leb, if◌then◌else◌,
}
use orchestrator_engine.Result.{
  Result, ok, err, ◌>>=◌, ◌>>◌, guard, bad_interval, bad_timeout, bad_stale_threshold,
}
use orchestrator_engine.Wait.Targets.{validate_targets}
use orchestrator_engine.Wait.Snapshot.{Reports}
use orchestrator_engine.Wait.Summary.{Status, WaitStatus, Report, operation_wait_snapshot}

-- The report that ends the wait, and the reports that the listener saw.
abbrev pub Ended : Type 0
Ended = Report × List Report

unfoldable pub is_ending : WaitStatus → Bool
is_ending WaitStatus.action_required = true
is_ending _ = false

unfoldable pub is_over : (deadline : Option ℕ) → (now : ℕ) → Bool
is_over none now = false
is_over (some deadline) now = leb deadline now

unfoldable pub sleep_for : (interval : ℕ) → (deadline : Option ℕ) → (now : ℕ) → ℕ
sleep_for interval none now = interval
sleep_for interval (some deadline) now = min interval (deadline - now)

abbrev pub with_waited : ℕ → Report → Report
with_waited waited rep = record rep { waited_seconds = some waited }

abbrev pub timed_out : Report → Report
timed_out rep = record rep {
  status = Status.waiting;
  wait_status = WaitStatus.timed_out;
  suggested_action = "The operation set is still active; re-run this command later.";
}

-- What follows a call that returns.
unfoldable pub checked : Result (Unit {0}) → Option (Result Ended) → Option (Result Ended)
checked (err e) run = some (err e)
checked (ok u) run = run

-- One round, behind its look, the clock's time and the first call of the listener, at step `n`;
-- `rest` is what the loop gives from the sleep on.
unfoldable pub round :
    Reports
    → (n : ℕ) → (deadline : Option ℕ) → (now : ℕ) → Report
    → (updates : List Report) → Option (Result Ended)
    → Option (Result Ended)
round h n deadline now rep updates rest =
    if rep.condition_met || is_ending rep.wait_status
    then some (ok (rep, updates ++ rep ∷ []))
    else if is_over deadline now
    then checked (h.on_update (suc n))
        (some (ok (timed_out rep, updates ++ rep ∷ timed_out rep ∷ [])))
    else rest

unfoldable pub or_raised : Result Report → (Report → Option (Result Ended)) → Option (Result Ended)
or_raised (err e) k = some (err e)
or_raised (ok rep) k = k rep

-- The loop, on fuel. `n` is the step, `slept` the time slept so far.
unfoldable pub poll :
    Reports
    → (fuel : ℕ) → (targets : List String) → (mode : String) → (interval : ℕ)
    → (deadline : Option ℕ) → (started n slept : ℕ) → (updates : List Report)
    → Option (Result Ended)
poll h zero targets mode interval deadline started n slept updates = none
poll h (suc fuel) targets mode interval deadline started n slept updates =
    let looked = n + length targets in
    let now = h.clock looked + slept in
    or_raised (operation_wait_snapshot h n targets mode) (λ rep.
      let seen = with_waited (now - started) rep in
      checked (h.on_update looked) (
        round h looked deadline now seen updates (
          checked (h.sleeper looked) (
            poll h fuel targets mode interval deadline started (suc looked)
              (slept + sleep_for interval deadline now) (updates ++ seen ∷ [])))))

unfoldable pub deadline_of : (timeout : Option ℕ) → (started : ℕ) → Option ℕ
deadline_of none started = none
deadline_of (some timeout) started = some (started + timeout)

unfoldable pub is_positive : ℕ → Bool
is_positive n = leb 1 n

unfoldable pub is_timeout : Option ℕ → Bool
is_timeout none = true
is_timeout (some n) = is_positive n

unfoldable pub check_arguments :
    (targets : List String)
    → (mode : String) → (interval : ℕ) → (timeout : Option ℕ) → (stale : ℕ) → Result (Unit {0})
check_arguments targets mode interval timeout stale = do
  validate_targets targets mode
  guard (is_positive interval) bad_interval
  guard (is_timeout timeout) bad_timeout
  guard (is_positive stale) bad_stale_threshold

unfoldable pub wait_for_operations :
    Reports
    → (fuel : ℕ) → (targets : List String) → (mode : String) → (interval : ℕ) → (timeout : Option ℕ)
    → (stale : ℕ) → Option (Result Ended)
wait_for_operations h fuel targets mode interval timeout stale =
    checked (check_arguments targets mode interval timeout stale)
      (poll h fuel targets mode interval (deadline_of timeout (h.clock 0)) (h.clock 0) 1 0 [])
