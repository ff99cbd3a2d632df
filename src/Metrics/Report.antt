-- ===== src/Metrics/Report.antt =====
-- resource_metrics.py: `report`, what the stages of a project waited for, and which part of the time
-- each resource was owned.
pub mod Fraction
use orchestrator_engine.Prelude.{
  min, max, ℕ, zero, suc, ◌+◌, ◌-◌, String, Bool, true, false, not, Option, none, some, List, [],
  ◌∷◌, ◌++◌, ◌==◌, leb, if◌then◌else◌, filter, length, map, Dict, lookup, put,
}
use orchestrator_engine.Result.{Result, ok, err, ◌>>=◌, key_error}
use orchestrator_engine.Resources.Claims.{Allocation}
use orchestrator_engine.Ledger.State.{State, same_state, Stage, World, Ledger, values}
use orchestrator_engine.Ledger.Save
use orchestrator_engine.Ledger.Save.{add_wait}
use orchestrator_engine.Metrics.Union.{Interval, intervals_union}
use orchestrator_engine.Metrics.Ownership.{Spans, Tally, or_else, tally}

-- A quotient, as its two parts.
abbrev pub Ratio : Type 0
Ratio = ℕ × ℕ

-- An entry of "resources".
pub record LeafMeasure : Type 0 where
  pub owned_wall : Option ℕ
  pub owned_capacity_units : Option ℕ
  pub ownership_fraction : Option Ratio
  pub latency_samples : ℕ
  pub mean_latency : Option Ratio

pub record Report : Type 0 where
  pub sample_size : ℕ
  pub observation : Option ℕ
  pub ready_to_grant_samples : ℕ
  pub mean_ready_to_grant : Option Ratio
  pub grant_to_launch_samples : ℕ
  pub mean_grant_to_launch : Option Ratio
  pub oldest_ready_wait : Option ℕ
  pub waiting_reasons : Dict ℕ
  pub wait_seconds_by_reason : Dict (Option ℕ)
  pub bypass_count : ℕ
  pub recovery_required : ℕ
  pub protected_requests : ℕ
  pub resources : Dict LeafMeasure
  pub clock_discontinuity : Bool

-- The variables of the loop over the stages.
pub record Waits : Type 0 where
  pub waits : List ℕ
  pub launch : List ℕ
  pub reasons : Dict ℕ
  pub seconds : Dict (Option ℕ)
  pub oldest : List ℕ

unfoldable pub sample : (since at : Option ℕ) → List ℕ → List ℕ
sample (some since) (some at) xs = if leb since at then xs ++ (at - since) ∷ [] else xs
sample _ _ xs = xs

unfoldable pub add_optional : Option ℕ → Option ℕ → Option ℕ
add_optional (some a) (some b) = some (a + b)
add_optional _ _ = none

-- The loop over `measured`.
unfoldable pub add_seconds : Dict (Option ℕ) → Dict (Option ℕ) → Dict (Option ℕ)
add_seconds [] total = total
add_seconds ((reason, seconds) ∷ measured) total =
    add_seconds measured
      (put reason (add_optional (or_else (some 0) (lookup reason total)) seconds) total)

unfoldable pub add_oldest : (now : ℕ) → (seq at : Option ℕ) → List ℕ → Result (List ℕ)
add_oldest now none at xs = ok xs
add_oldest now (some seq) none xs = err key_error
add_oldest now (some seq) (some at) xs = ok (if leb at now then xs ++ (now - at) ∷ [] else xs)

-- A stage that waits, under its reason.
unfoldable pub add_waiting : (now : ℕ) → Stage → Option String → Waits → Result Waits
add_waiting now s none v = err key_error
add_waiting now s (some reason) v = do
  oldest ← add_oldest now s.ready_seq s.ready_at v.oldest
  ok (record v {
    reasons = put reason (suc (or_else 0 (lookup reason v.reasons))) v.reasons;
    seconds =
        add_seconds
          (put reason
            (add_wait (or_else s.created_at s.transition_at) now (lookup reason s.wait_seconds))
            s.wait_seconds)
          v.seconds;
    oldest = oldest;
  })

unfoldable pub add_samples : Stage → Waits → Waits
add_samples s v = record v {
  waits = sample s.ready_at s.granted_at v.waits;
  launch = sample s.granted_at s.started_at v.launch;
}

unfoldable pub add_stage : (now : ℕ) → Stage → Waits → Result Waits
add_stage now s v =
    if same_state s.state State.waiting
    then add_waiting now s s.reason (add_samples s v)
    else ok (record (add_samples s v) { seconds = add_seconds s.wait_seconds v.seconds })

unfoldable pub add_all : (now : ℕ) → List Stage → Waits → Result Waits
add_all now [] v = ok v
add_all now (s ∷ ss) v = do v' ← add_stage now s v; add_all now ss v'

unfoldable pub total : List ℕ → ℕ
total [] = 0
total (x ∷ xs) = x + total xs

unfoldable pub mean : List ℕ → Option Ratio
mean [] = none
mean (x ∷ xs) = some (total (x ∷ xs), length (x ∷ xs))

unfoldable pub smallest : List ℕ → Option ℕ
smallest [] = none
smallest (x ∷ xs) = elim (smallest xs) [ none ↦ some x | some y ↦ some (min x y) ]

unfoldable pub largest : List ℕ → Option ℕ
largest [] = none
largest (x ∷ xs) = elim (largest xs) [ none ↦ some x | some y ↦ some (max x y) ]

unfoldable pub window_of : (now : ℕ) → (first : Option ℕ) → Option ℕ
window_of now none = none
window_of now (some first) = if leb first now then some (now - first) else none

unfoldable pub fraction_of : (busy : ℕ) → (window : Option ℕ) → Option Ratio
fraction_of busy none = none
fraction_of busy (some zero) = none
fraction_of busy (some (suc n)) = some (busy, suc n)

abbrev pub unless : Bool → ℕ → Option ℕ
unless invalid n = if invalid then none else some n

unfoldable pub measure_leaf : (window : Option ℕ) → (invalid : Bool) → List ℕ → Spans → LeafMeasure
measure_leaf window invalid latencies spans =
    let busy = intervals_union spans.intervals in
    record {
      owned_wall = unless invalid busy;
      owned_capacity_units = unless invalid spans.units;
      ownership_fraction = fraction_of busy window;
      latency_samples = length latencies;
      mean_latency = mean latencies;
    }

unfoldable pub measure_leaves : (window : Option ℕ) → Tally → Dict Spans → Dict LeafMeasure
measure_leaves window t [] = []
measure_leaves window t ((leaf, spans) ∷ rest) =
    (leaf, measure_leaf window t.invalid_clock (or_else [] (lookup leaf t.latencies)) spans)
    ∷ measure_leaves window t rest

abbrev pub is_nonempty : Option Allocation → Bool
is_nonempty (some (c ∷ cs)) = true
is_nonempty _ = false

abbrev pub no_waits : Waits
no_waits = record { waits = []; launch = []; reasons = []; seconds = []; oldest = [] }

-- ledger.stages(project=project)
unfoldable pub project_stages : String → Ledger → List Stage
project_stages project l = filter (λ (s : Stage). s.project == project) (values l.stages)

abbrev pub ids_of : List Stage → List String
ids_of = map (λ (s : Stage). s.id)

unfoldable pub written : (now : ℕ) → List Stage → Waits → Tally → Report
written now stages v t =
    let window = window_of now (smallest (map (λ (s : Stage). s.created_at) stages)) in
    record {
      sample_size = length stages;
      observation = window;
      ready_to_grant_samples = length v.waits;
      mean_ready_to_grant = mean v.waits;
      grant_to_launch_samples = length v.launch;
      mean_grant_to_launch = mean v.launch;
      oldest_ready_wait = largest v.oldest;
      waiting_reasons = v.reasons;
      wait_seconds_by_reason = v.seconds;
      bypass_count = total (map (λ (s : Stage). s.bypass_count) stages);
      recovery_required =
          length (filter (λ (s : Stage). same_state s.state State.recovery_required) stages);
      protected_requests = length (filter (λ (s : Stage). is_nonempty s.protection) stages);
      resources = measure_leaves window t t.spans;
      clock_discontinuity = t.invalid_clock;
    }

unfoldable pub report : World → (project : String) → Ledger → Result Report
report w project l =
    let now = Save.now w l in
    let stages = project_stages project l in
    do
      v ← add_all now stages no_waits
      ok (written now stages v (tally now (ids_of stages) l.events))
