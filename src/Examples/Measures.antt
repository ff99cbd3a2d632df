-- ===== src/Examples/Measures.antt =====
-- The union of two intervals, and the measures of a stage that holds the left board.
use orchestrator_engine.Prelude.{◌≡◌, refl, false, none, some, List, [], ◌∷◌, arith, lookup, put}
use orchestrator_engine.Result.{ok}
use orchestrator_engine.Ledger.State.{State, Notice, Ledger, same_state, values}
use orchestrator_engine.Ledger.Save
use orchestrator_engine.Metrics.Union
use orchestrator_engine.Metrics.Union.{Interval, intervals_union}
use orchestrator_engine.Metrics.Union.Measure.{covered, count, intervals_union-count}
use orchestrator_engine.Metrics.Ownership
use orchestrator_engine.Metrics.Report
use orchestrator_engine.Metrics.Report.Fraction.{ArePart, report-ArePart}
use orchestrator_engine.Examples.{world, one_claim, ledger_in}

program : Unit {0}
unfolding lookup put same_state values Save.add_wait Union.before Union.insert Union.sorted
    Union.add_intervals Union.intervals_union Ownership.set_owned Ownership.drop_owned
    Ownership.owned_since Ownership.weight_of Ownership.add_latency Ownership.grant_leaves
    Ownership.add_span Ownership.close Ownership.note_release Ownership.release_leaves
    Ownership.read_notice Ownership.read_events Ownership.close_owned Ownership.tally Report.sample
    Report.add_optional Report.add_seconds Report.add_oldest Report.add_waiting Report.add_samples
    Report.add_stage Report.add_all Report.total Report.mean Report.smallest Report.largest
    Report.window_of Report.fraction_of Report.measure_leaf Report.measure_leaves
    Report.project_stages Report.written Report.report
program = tt

-- Two intervals that overlap, in the wrong order.
abbrev spans : List Interval
spans = (3, 7) ∷ (1, 5) ∷ []

intervals_union-count_example : intervals_union spans ≡ count (covered spans) 9
intervals_union-count_example = intervals_union-count 9 spans (omega arith, (omega arith, tt))

-- The board was granted at 3, the first stage was created at 1, and it is 5 now.
abbrev ledger : Ledger
ledger = record (ledger_in State.running) {
  events = record { at = 3; subject = "stage"; notice = Notice.granted one_claim 1 [] } ∷ [];
}

abbrev measures : Report.Report
measures = record {
  sample_size = 1;
  observation = some 4;
  ready_to_grant_samples = 1;
  mean_ready_to_grant = some (1, 1);
  grant_to_launch_samples = 0;
  mean_grant_to_launch = none;
  oldest_ready_wait = none;
  waiting_reasons = [];
  wait_seconds_by_reason = [];
  bypass_count = 0;
  recovery_required = 0;
  protected_requests = 0;
  resources =
      (
        "left",
        record {
          owned_wall = some 2;
          owned_capacity_units = some 2;
          ownership_fraction = some (2, 4);
          latency_samples = 0;
          mean_latency = none;
        },
      )
      ∷ [];
  clock_discontinuity = false;
}

measured_ok : Report.report world "project" ledger ≡ ok measures
unfolding program
measured_ok = refl

report-ArePart_example : ArePart measures.resources
unfolding program
report-ArePart_example =
    report-ArePart world "project" ledger 1 measures refl ((omega arith, omega arith), tt)
      measured_ok
