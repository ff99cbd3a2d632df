-- ===== src/Wait/Summary.antt =====
-- operation_wait.py: operation_wait_snapshot, the state of a set of targets.
pub mod Means
use orchestrator_engine.Prelude.{
  ℕ, zero, suc, String, Bool, true, false, not, ◌&&◌, Option, none, List, [], ◌∷◌, ◌==◌, eqb,
  filter, length, map, if◌then◌else◌,
}
use orchestrator_engine.Json
use orchestrator_engine.Json.{Json}
use orchestrator_engine.Result.{Result, ok, ◌>>=◌, ◌>>◌}
use orchestrator_engine.Wait.Targets.{validate_targets}
use orchestrator_engine.Wait.Snapshot.{Snapshot, Reports, operation_snapshot}

pub data Status : Type 0 where
  action_required unsuccessful completed waiting : Status

pub data WaitStatus : Type 0 where
  action_required condition_met waiting timed_out : WaitStatus

-- The dict that operation_wait_snapshot returns; its "terminal" is the condition again, and
-- "waited_seconds" is what wait_for_operations writes there.
pub record Report : Type 0 where
  pub mode : String
  pub status : Status
  pub wait_status : WaitStatus
  pub condition_met : Bool
  pub target_count : ℕ
  pub terminal_count : ℕ
  pub successful_count : ℕ
  pub unsuccessful_count : ℕ
  pub action_required_count : ℕ
  pub active_count : ℕ
  pub targets : List Snapshot
  pub terminal_targets : List String
  pub action_required_targets : List String
  pub wakeup_enabled_targets : List String
  pub duplicate_followup_risk : Bool
  pub suggested_action : String
  pub waited_seconds : Option ℕ

-- bool(xs)
abbrev pub some_in {ℓ} : {A : Type ℓ} → List A → Bool
some_in [] = false
some_in (x ∷ xs) = true

unfoldable pub wakes : Snapshot → Bool
wakes s = not (Json.eq (Json.get_or "wake_policy" (Json.str "always") s.copied) (Json.str "never"))

unfoldable pub is_active : Snapshot → Bool
is_active s = not s.terminal && not s.action_required

-- The status, the wait status and the suggested action, by the three tests.
unfoldable pub decided : (action met failed : Bool) → Status × WaitStatus × String
decided true met failed = (
  Status.action_required, WaitStatus.action_required,
  "Return to the orchestrating chat and inspect unhealthy operations.",
)
decided false true failed = (
  if failed then Status.unsuccessful else Status.completed,
  WaitStatus.condition_met,
  "Return to the orchestrating chat to review the operation results.",
)
decided false false failed =
    (Status.waiting, WaitStatus.waiting, "Keep this command open; it will update when ready.")

unfoldable pub is_met : (mode : String) → (terminal snapshots : List Snapshot) → Bool
is_met mode terminal snapshots =
    if mode == "any" then some_in terminal else eqb (length terminal) (length snapshots)

unfoldable pub summary : (mode : String) → List Snapshot → Report
summary mode snapshots =
    let terminal = filter (λ (s : Snapshot). s.terminal) snapshots in
    let unsuccessful = filter (λ (s : Snapshot). not s.successful) terminal in
    let action_required = filter (λ (s : Snapshot). s.action_required) snapshots in
    let wakeup_enabled = map (λ (s : Snapshot). s.target) (filter wakes snapshots) in
    let met = is_met mode terminal snapshots in
    let (status, wait_status, action) =
      decided (some_in action_required) met (some_in unsuccessful) in
    record {
      mode = mode;
      status = status;
      wait_status = wait_status;
      condition_met = met;
      target_count = length snapshots;
      terminal_count = length terminal;
      successful_count = length (filter (λ (s : Snapshot). s.successful) terminal);
      unsuccessful_count = length unsuccessful;
      action_required_count = length action_required;
      active_count = length (filter is_active snapshots);
      targets = snapshots;
      terminal_targets = map (λ (s : Snapshot). s.target) terminal;
      action_required_targets = map (λ (s : Snapshot). s.target) action_required;
      wakeup_enabled_targets = wakeup_enabled;
      duplicate_followup_risk = some_in wakeup_enabled;
      suggested_action = action;
      waited_seconds = none;
    }

-- One look at each target, a step each.
unfoldable pub snapshots_from :
    Reports → (step : ℕ) → (targets : List String) → Result (List Snapshot)
snapshots_from h n [] = ok []
snapshots_from h n (t ∷ ts) = do
  s ← operation_snapshot h n t
  rest ← snapshots_from h (suc n) ts
  ok (s ∷ rest)

unfoldable pub operation_wait_snapshot :
    Reports → (step : ℕ) → (targets : List String) → (mode : String) → Result Report
operation_wait_snapshot h n targets mode = do
  validate_targets targets mode
  snapshots ← snapshots_from h n targets
  ok (summary mode snapshots)
