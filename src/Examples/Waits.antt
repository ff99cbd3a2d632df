-- ===== src/Examples/Waits.antt =====
-- A wait for a check that is running at first and has passed later.
use orchestrator_engine.Prelude.{
  ◌+◌, String, ◌≡◌, ◌≢◌, ◌↔◌, refl, Bool, true, false, none, some, List, [], ◌∷◌, ltb, contains,
  if◌then◌else◌, arith, length,
}
use orchestrator_engine.Json
use orchestrator_engine.Json.{Json, Fields, Items, ℤ}
use orchestrator_engine.Resources.Registry
use orchestrator_engine.Result
use orchestrator_engine.Result.{Result, ok}
use orchestrator_engine.Wait.Targets
use orchestrator_engine.Wait.Targets.{Kind, Target, parse_target, validate_targets}
use orchestrator_engine.Wait.Targets.Text.{target_text, parse_target_iff}
use orchestrator_engine.Wait.Targets.Valid.{IsAccepted, validate_targets_iff}
use orchestrator_engine.Wait.Snapshot
use orchestrator_engine.Wait.Snapshot.{Reports, operation_snapshot, active_statuses}
use orchestrator_engine.Wait.Snapshot.Sorted.{IsSorted, operation_snapshot-IsSorted}
use orchestrator_engine.Wait.Summary
use orchestrator_engine.Wait.Summary.{Status, WaitStatus, Report, operation_wait_snapshot}
use orchestrator_engine.Wait.Summary.Means.{Says, operation_wait_snapshot-Says}
use orchestrator_engine.Wait.Loop
use orchestrator_engine.Wait.Loop.{Ended, with_waited, wait_for_operations}
use orchestrator_engine.Wait.Loop.Ends.{wait_for_operations-returns}
use orchestrator_engine.Wait.Loop.Truth.{IsEnd, wait_for_operations-IsEnd}

program : Unit {0}
unfolding Json.get Json.get_or Json.int_eq Json.bool_int Json.size Json.eq Registry.truthy
    Result.traverse Targets.with_front Targets.partition Targets.kind_named Targets.target_of
    Targets.from_parts Targets.parse_target Targets.same_kind Targets.same_target Targets.is_in
    Targets.to_set Targets.is_empty Targets.validate_targets Snapshot.str_of Snapshot.status_in
    Snapshot.requires_action Snapshot.item_in Snapshot.single_report_item Snapshot.report_item
    Snapshot.judged Snapshot.copy Snapshot.health_in Snapshot.snapshot_of
    Snapshot.operation_snapshot Summary.wakes Summary.is_active Summary.decided Summary.is_met
    Summary.summary Summary.snapshots_from Summary.operation_wait_snapshot Loop.is_ending
    Loop.is_over Loop.sleep_for Loop.round Loop.or_raised Loop.poll Loop.deadline_of
    Loop.is_positive Loop.is_timeout Loop.check_arguments Loop.checked Loop.wait_for_operations
program = tt

abbrev check_report : String → Fields
check_report status =
    Fields.field "checks"
      (Json.arr
        (Items.cons (Json.obj (Fields.field "status" (Json.str status) Fields.end)) Items.nil))
      Fields.end

abbrev reports : Reports
reports = record {
  report = λ n t. ok (check_report (if ltb n 2 then "running" else "passed"));
  clock = λ n. n;
  shown = λ v. "";
  on_update = λ n. ok tt;
  sleeper = λ n. ok tt;
}

abbrev targets : List String
targets = "check:unit" ∷ []

abbrev unit_check : Target
unit_check = record { kind = Kind.check; id = "unit" }

abbrev snapshot_in : (status : String) → (ended : Bool) → Snapshot.Snapshot
snapshot_in status ended = record {
  target = "check:unit";
  kind = Kind.check;
  operation_id = "unit";
  status = status;
  terminal = ended;
  successful = ended;
  action_required = false;
  copied = Fields.end;
  health = none;
}

abbrev passed : Report
passed = record {
  mode = "all";
  status = Status.completed;
  wait_status = WaitStatus.condition_met;
  condition_met = true;
  target_count = 1;
  terminal_count = 1;
  successful_count = 1;
  unsuccessful_count = 0;
  action_required_count = 0;
  active_count = 0;
  targets = snapshot_in "passed" true ∷ [];
  terminal_targets = targets;
  action_required_targets = [];
  wakeup_enabled_targets = targets;
  duplicate_followup_risk = true;
  suggested_action = "Return to the orchestrating chat to review the operation results.";
  waited_seconds = none;
}

passed_ok : operation_wait_snapshot reports 3 targets "all" ≡ ok passed
unfolding program
passed_ok = refl

operation_wait_snapshot-Says_example :
    (passed.target_count ≡ length targets)
    × (passed.successful_count + passed.unsuccessful_count ≡ passed.terminal_count)
    × Says passed.status passed
operation_wait_snapshot-Says_example =
    operation_wait_snapshot-Says reports 3 targets "all" passed passed_ok

snapshot_ok : operation_snapshot reports 0 "check:unit" ≡ ok (snapshot_in "running" false)
unfolding program
snapshot_ok = refl

operation_snapshot-IsSorted_example :
    IsSorted false false false (contains active_statuses "running")
operation_snapshot-IsSorted_example =
    operation_snapshot-IsSorted reports 0 "check:unit" (snapshot_in "running" false) snapshot_ok
      refl

abbrev running : Report
running = record {
  mode = "all";
  status = Status.waiting;
  wait_status = WaitStatus.waiting;
  condition_met = false;
  target_count = 1;
  terminal_count = 0;
  successful_count = 0;
  unsuccessful_count = 0;
  action_required_count = 0;
  active_count = 1;
  targets = snapshot_in "running" false ∷ [];
  terminal_targets = [];
  action_required_targets = [];
  wakeup_enabled_targets = targets;
  duplicate_followup_risk = true;
  suggested_action = "Keep this command open; it will update when ready.";
  waited_seconds = none;
}

abbrev updates : List Report
updates = with_waited 2 running ∷ with_waited 6 passed ∷ []

waited_ok :
    wait_for_operations reports 9 targets "all" 2 (some 8) 30
    ≡ some (ok (with_waited 6 passed, updates))
unfolding program
waited_ok = refl

wait_for_operations-IsEnd_example :
    IsEnd reports targets "all" (some 8) (with_waited 6 passed) updates
wait_for_operations-IsEnd_example =
    wait_for_operations-IsEnd reports 9 targets "all" 2 (some 8) 30 (with_waited 6 passed) updates
      waited_ok

wait_for_operations-returns_example :
    (x : Result Ended) × (wait_for_operations reports 9 targets "all" 2 (some 8) 30 ≡ some x)
wait_for_operations-returns_example =
    wait_for_operations-returns reports 8 targets "all" 2 8 30 (λ n. omega arith) (omega arith)

parse_target_iff_example :
    (parse_target "check:unit" ≡ ok unit_check)
    ↔ ((unit_check.id ≢ "") × ("check:unit" ≡ target_text unit_check))
parse_target_iff_example = parse_target_iff "check:unit" unit_check

validate_targets_iff_example : (validate_targets targets "all" ≡ ok tt) ↔ IsAccepted targets "all"
validate_targets_iff_example = validate_targets_iff targets "all"
