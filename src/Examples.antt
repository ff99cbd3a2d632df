-- ===== src/Examples.antt =====
-- A small installation, run through the program: two boards behind a pool, and one request.
pub mod Leases
pub mod Waits
pub mod Measures
pub mod Acceptances
pub mod Searches
pub mod Publications
pub mod Bindings
pub mod Snapshots
use orchestrator_engine.Prelude.{
  ℕ, ◌≤◌, ◌==◌, String, ◌≡◌, refl, ap, true, false, none, some, List, [], ◌∷◌, eqb, lookup, put,
  remove, keys, if◌then◌else◌, length, map, All, ◌≢◌, ◌↔◌, arith,
}
use orchestrator_engine.Json
use orchestrator_engine.Json.{Json, Fields, Items, ℤ}
use orchestrator_engine.Result
use orchestrator_engine.Result.{Result, ok, err, Yields}
use orchestrator_engine.Resources.Registry
use orchestrator_engine.Resources.Registry.{Registry, Leaf, Entry}
use orchestrator_engine.Resources.Claims
use orchestrator_engine.Resources.Selectors
use orchestrator_engine.Resources.Alternatives
use orchestrator_engine.Resources.Demands
use orchestrator_engine.Resources.Assignments
use orchestrator_engine.Resources.Normalize
use orchestrator_engine.Ledger.State.{
  After, State, Stage, World, Ledger, same_state, values, active_stages, owners, owned, held,
}
use orchestrator_engine.Ledger.Save
use orchestrator_engine.Ledger.Outcomes
use orchestrator_engine.Ledger.Operations
use orchestrator_engine.Ledger.Schedule
use orchestrator_engine.Ledger.Schedule.Ready
use orchestrator_engine.Ledger.Schedule.Waiting
use orchestrator_engine.Ledger.Plans
use orchestrator_engine.Ledger.Requests
use orchestrator_engine.Ledger.Steps
use orchestrator_engine.Ledger.Steps.{Step, Reached, created}
use mathlib.Core.WellFounded.{Acc}
use orchestrator_engine.Resources.Claims.{Mode, Claim, Allocation}
use orchestrator_engine.Resources.Claims.Safety.{IsSafe, compatible_iff}
use orchestrator_engine.Resources.Demands.{Demand}
use orchestrator_engine.Resources.Assignments.Admissible.{IsAdmissible, assignments-IsAdmissible}
use orchestrator_engine.Resources.Normalize.Normal.{IsNormal}
use orchestrator_engine.Resources.Normalize.Physical.{physical_ids, normalize_registry-distinct}
use orchestrator_engine.Ledger.Plans.{Definition}
use orchestrator_engine.Ledger.Plans.Acyclic.{Precedes, peel-Acc, peel-ends}
use orchestrator_engine.Ledger.Invariant.{IsSound, Keeps}
use orchestrator_engine.Ledger.Forward.Later.{IsNotDrawn, Later}
use orchestrator_engine.Ledger.Forward.Again.{admit-once, finish-once}
use orchestrator_engine.Ledger.Schedule.Blockers.{blockers-none}
use orchestrator_engine.Ledger.Safety.Schedule.{schedule-IsSound}
use orchestrator_engine.Ledger.Safety.Quarantine.{IsSettled, finish-IsSettled}
use orchestrator_engine.Ledger.Safety.Cancels.{IsCancelled, cancel-IsCancelled}
use orchestrator_engine.Ledger.Safety.Reach.{IsGood}
use orchestrator_engine.Ledger.Safety.Configuration.{LeafIsSafe-none, configure-IsSound}
use orchestrator_engine.Ledger.Safety.Reach.{Reached-IsSafe, Reached-IsGood}

program : Unit {0}
unfolding Json.get Json.get_or Json.to_list Json.int_eq Json.bool_int Json.size Json.eq
    Json.fields_in Result.traverse Result.lazy_any Result.lazy_all Result.chain Result.each
    Result.for_each lookup put remove keys Registry.identifier Registry.positive Registry.update
    Registry.truthy Registry.check_release Registry.normalize_leaf Registry.member Registry.distinct
    Registry.members_of Registry.kind_of Registry.is_alias Registry.with_kind
    Registry.normalize_selector Registry.text_or_raise Registry.normalize_entry
    Registry.normalize_entries Claims.occupied Claims.total_units Claims.clashes
    Claims.over_capacity Claims.fits Claims.compatible Selectors.enter Selectors.union
    Selectors.union_all Selectors.selector_leaves Selectors.combined Selectors.selector_available
    Selectors.lazy_combined Selectors.leaf_claim_available Selectors.selector_claim_available
    Alternatives.depth Alternatives.insert Alternatives.sorted Alternatives.min_or_zero
    Alternatives.member_key Alternatives.ordered_members Alternatives.same_choice
    Alternatives.unseen Alternatives.disjoint Alternatives.combine Alternatives.choices
    Alternatives.alternatives Demands.mode_of Demands.check_group Demands.demand Demands.demands
    Assignments.plan_steps Assignments.hopeless Assignments.unavailable Assignments.options
    Assignments.merge Assignments.place_leaf Assignments.place Assignments.extend Assignments.search
    Assignments.assignments Normalize.some_alternative Normalize.check_names
    Normalize.normalize_registry same_state values active_stages owners owned held Save.event
    Save.find_stage Save.find_request Save.add_wait Save.accumulated Save.is_changed Save.write
    Save.save Outcomes.stages_of Outcomes.needs_recovery Outcomes.is_settled Outcomes.status_of
    Outcomes.outcome_id Outcomes.latest Outcomes.add_generation Outcomes.add_message Outcomes.omit
    Outcomes.redact Outcomes.notify Outcomes.notify_all Outcomes.outcome Outcomes.outcomes
    Operations.attach Operations.admit Operations.cancel Operations.cancel_stage
    Operations.cancel_stages Operations.groups_of Operations.is_coupled Operations.without
    Operations.completed Operations.settle Operations.finish Schedule.count_demands
    Schedule.count_stages Schedule.leaf_of Schedule.with_leaf Schedule.bypass Schedule.with_grant
    Schedule.enact Schedule.grant Schedule.tried Schedule.try_stage Schedule.try_all
    Schedule.quarantined Schedule.distinct_requests Schedule.schedule Ready.predecessors
    Ready.is_lost Ready.verdict Ready.mark_ready Ready.sort_out Ready.sort_all Ready.first_pass
    Waiting.bump_leaves Waiting.kept_protection Waiting.candidate Waiting.same_claim
    Waiting.same_allocation Waiting.characters Waiting.blocks_demand Waiting.blockers
    Waiting.put_back Waiting.keep_waiting Plans.keys_of Ready.starts_with Ready.occurs_in
    Plans.dependency Plans.after_of Plans.definition_of Plans.stages_in Plans.peel Plans.read_plan
    Requests.same_entry Requests.same_registry Requests.check_active Requests.check_stages
    Requests.configure Requests.some_assignment Requests.check_definition Requests.check_definitions
    Requests.new_stage Requests.add_stages Requests.add_request Requests.known_request
    Requests.submit_new Requests.submit Steps.created
program = tt

abbrev pub world : World
world = record {
  clock = λ n. n;
  uuid = λ n. if eqb n 2 then "stage" else "request";
  token = λ n. "secret";
  plan_digest = λ p. "plan";
  outcome_digest = λ s xs. s;
  delivery_id = λ r s g o. s;
}

abbrev text : String → String → Fields → Fields
text k v fs = Fields.field k (Json.str v) fs

abbrev board : Json
board = Json.obj (text "release" "process" (text "recovery_group" "rack" Fields.end))

abbrev raw_registry : Json
raw_registry = Json.obj (Fields.field "left" board (Fields.field "right" board Fields.end))

abbrev configured : Result Ledger
configured = Requests.configure world raw_registry created

-- The value of a run, where it has one.
abbrev pub value : {A : Type 0} → A → Result A → A
value a (ok b) = b
value a (err e) = a

abbrev first_ledger : Ledger
first_ledger = value created configured

configured_ok : configured ≡ ok first_ledger
unfolding program
configured_ok = refl

configured_size : length first_ledger.registry ≡ 2
unfolding program
configured_size = refl

abbrev plan : Fields
plan =
    Fields.field "stages"
      (Json.arr (
        Items.cons
          (Json.obj (
            text "id" "build" (
              Fields.field "needs"
                (Json.arr (Items.cons (Json.obj (text "resource" "left" Fields.end)) Items.nil))
                Fields.end)))
          Items.nil))
      Fields.end

abbrev submitted : Result (String × Ledger)
submitted = Requests.submit world (Json.str "project") (Json.str "job") plan none first_ledger

abbrev second_ledger : Ledger
second_ledger = (value ("", created) submitted).1

submitted_ok : submitted ≡ ok ("request", second_ledger)
unfolding program
submitted_ok = refl

abbrev scheduled : Result (List Stage × Ledger)
scheduled = Schedule.schedule world [] second_ledger

abbrev third_ledger : Ledger
third_ledger = (value ([], created) scheduled).1

abbrev granted : List Stage
granted = (value ([], created) scheduled).0

scheduled_ok : scheduled ≡ ok (granted, third_ledger)
unfolding program
scheduled_ok = refl

granted_one : map (λ s. keys s.allocation) granted ≡ ("left" ∷ []) ∷ []
unfolding program
granted_one = refl

after_configure : Reached world first_ledger
after_configure = Reached.then Reached.new (Step.configure raw_registry configured_ok)

after_submit : Reached world second_ledger
after_submit =
    Reached.then after_configure
      (Step.submit (Json.str "project") (Json.str "job") plan none "request" submitted_ok)

after_schedule : Reached world third_ledger
after_schedule = Reached.then after_submit (Step.schedule [] granted scheduled_ok)

-- Witnesses: the theorems at these ledgers.
Reached-IsSafe_example : IsSafe third_ledger.registry (held third_ledger)
Reached-IsSafe_example = Reached-IsSafe world third_ledger after_schedule

schedule-IsSound_example : Keeps second_ledger third_ledger
schedule-IsSound_example =
    schedule-IsSound world [] second_ledger third_ledger granted
      (Reached-IsGood world second_ledger after_submit).0 scheduled_ok

configure-IsSound_example : IsSound first_ledger × IsNormal first_ledger.registry
configure-IsSound_example =
    configure-IsSound world raw_registry created first_ledger
      (Reached-IsGood world created Reached.new).0 (Reached-IsGood world created Reached.new).1
      configured_ok

abbrev two_steps : List Definition
two_steps =
    record {
      name = "test";
      after = After.names ("build" ∷ []);
      needs = Json.null;
      fields = Fields.end;
    }
    ∷ record { name = "build"; after = After.names []; needs = Json.null; fields = Fields.end }
    ∷ []

two_steps_ok : Plans.peel (length two_steps) two_steps ≡ ok tt
unfolding program
two_steps_ok = refl

peel-Acc_example : All (Acc (Precedes two_steps)) two_steps
peel-Acc_example = peel-Acc two_steps two_steps_ok

peel-ends_example : Plans.peel 2 two_steps ≢ err Result.exhausted
peel-ends_example = peel-ends 2 two_steps (omega arith)

-- A ledger written out: one stage holds the left board.
abbrev board_leaf : String → Leaf
board_leaf name = record {
  physical_id = name;
  capacity = 1;
  incarnation = "1";
  recovery_group = Json.null;
  fields = text "kind" "resource" (Fields.field "capacity" (Json.num (ℤ.pos 1)) Fields.end);
}

abbrev pub boards : Registry
boards =
    ("left", Entry.resource (board_leaf "left"))
    ∷ ("right", Entry.resource (board_leaf "right"))
    ∷ []

abbrev pub left_need : Json
left_need = Json.arr (Items.cons (Json.obj (text "resource" "left" Fields.end)) Items.nil)

abbrev pub one_claim : Allocation
one_claim = ("left", record { mode = Mode.exclusive; units = 1; compatibility = Json.null }) ∷ []

assignments-IsAdmissible_example :
    Yields
      (IsAdmissible (Requests.alone_in boards))
      (Assignments.assignments (Requests.alone_in boards) left_need)
assignments-IsAdmissible_example = assignments-IsAdmissible (Requests.alone_in boards) left_need

IsAdmissible-left : IsAdmissible (Requests.alone_in boards) one_claim
unfolding program
IsAdmissible-left = (assignments-IsAdmissible (Requests.alone_in boards) left_need).0

nothing_held : IsSafe boards []
unfolding program
nothing_held leaf = LeafIsSafe-none (lookup leaf boards) [] refl

compatible_iff_example :
    (Claims.compatible boards one_claim [] ≡ ok true) ↔ IsSafe boards (one_claim ∷ [])
compatible_iff_example =
    compatible_iff boards one_claim [] IsAdmissible-left.0 IsAdmissible-left.1 nothing_held

abbrev pub stage_in : State → Stage
stage_in state = record {
  id = "stage";
  name = "build";
  request = "request";
  project = "project";
  after = After.names [];
  needs = left_need;
  definition = Fields.end;
  state = state;
  seq = 1;
  reason = none;
  epoch = 1;
  allocation = one_claim;
  granted_allocation = one_claim;
  resource_incarnations = ("left", "1") ∷ [];
  protection = none;
  launch_token = some "secret";
  maintenance_token = some "secret";
  cancel_requested = false;
  supervisor_identity = Json.null;
  runner_evidence = Fields.end;
  outcome = none;
  evidence = Json.null;
  created_at = 1;
  ready_at = some 2;
  ready_seq = some 2;
  granted_at = some 3;
  started_at = none;
  finished_at = none;
  transition_at = some 4;
  wait_seconds = [];
  bypass_count = 0;
  blockers = [];
}

abbrev pub ledger_in : State → Ledger
ledger_in state = record {
  registry = boards;
  released = [];
  sequence = 2;
  stages = ("stage", stage_in state) ∷ [];
  requests =
      (
        "request",
        record {
          id = "request";
          project = "project";
          external = "job";
          plan = Json.null;
          subscribers = [];
          created_at = 1;
        },
      )
      ∷ [];
  history = [];
  events = [];
  outbox = [];
  reads = 5;
  draws = 5;
}

left_held : IsSafe boards (one_claim ∷ [])
unfolding program
left_held =
    (compatible_iff boards one_claim [] IsAdmissible-left.0 IsAdmissible-left.1 nothing_held).0 refl

launching_IsSound : IsSound (ledger_in State.launching)
unfolding program
launching_IsSound = record { keyed = (refl, tt); dict = (refl, tt); safe = left_held }

running-IsSound : IsSound (ledger_in State.running)
unfolding program
running-IsSound = record { keyed = (refl, tt); dict = (refl, tt); safe = left_held }

abbrev finished : Result Ledger
finished =
    Operations.finish world "stage" 1 State.passed ("left" ∷ []) Json.null (ledger_in State.running)

abbrev finished_ledger : Ledger
finished_ledger = value created finished

finished_ok : finished ≡ ok finished_ledger
unfolding program
finished_ok = refl

stage_found : Save.find_stage "stage" (ledger_in State.running) ≡ ok (stage_in State.running)
unfolding program
stage_found = refl

all_released : Operations.is_empty (Operations.without ("left" ∷ []) one_claim) ≡ true
unfolding program
all_released = refl

finish-IsSettled_example :
    (t : Stage) × (lookup "stage" finished_ledger.stages ≡ some t)
    × IsSettled boards (stage_in State.running) t State.passed ("left" ∷ [])
finish-IsSettled_example =
    finish-IsSettled world "stage" 1 State.passed ("left" ∷ []) Json.null (stage_in State.running)
      (ledger_in State.running) finished_ledger running-IsSound stage_found finished_ok

boards-IsNormal : IsNormal boards
unfolding program
boards-IsNormal = ((refl, refl), ((refl, refl), tt))

-- The request is cancelled behind the completion, and behind the admission.
past_the_stage : (n : ℕ) → 5 ≤ n → eqb n 2 ≡ false
past_the_stage n h = ground arith

no_stage_drawn : (l : Ledger) → l.draws ≡ 5 → IsNotDrawn world "stage" l
no_stage_drawn l e n h =
    ap (λ b. (if b then "stage" else "request") == "stage") (past_the_stage n (rw e at h))

finished_draws : finished_ledger.draws ≡ 5
unfolding program
finished_draws = refl

abbrev cancelled : State → Ledger → Ledger
cancelled state l = value (ledger_in state) (Operations.cancel world "request" l)

ended_then_cancelled :
    Operations.cancel world "request" finished_ledger ≡ ok (cancelled State.running finished_ledger)
unfolding program
ended_then_cancelled = refl

finish-once_example :
    Operations.finish world "stage" 1 State.failed [] Json.null
      (cancelled State.running finished_ledger)
    ≡ err Result.stale_completion
finish-once_example =
    finish-once world "stage" 1 1 State.passed State.failed ("left" ∷ []) [] Json.null Json.null
      (stage_in State.running) (ledger_in State.running) finished_ledger
      (cancelled State.running finished_ledger) (running-IsSound, boards-IsNormal) stage_found
      all_released refl finished_ok
      (Later.then Later.here (no_stage_drawn finished_ledger finished_draws)
        (Step.cancel "request" ended_then_cancelled))

abbrev admitted : Result (Stage × Ledger)
admitted = Operations.admit world "stage" "secret" (ledger_in State.launching)

abbrev admitted_pair : Stage × Ledger
admitted_pair = value (stage_in State.waiting, created) admitted

admitted_ok : admitted ≡ ok (admitted_pair.0, admitted_pair.1)
unfolding program
admitted_ok = refl

admitted_draws : admitted_pair.1.draws ≡ 5
unfolding program
admitted_draws = refl

admitted_then_cancelled :
    Operations.cancel world "request" admitted_pair.1
    ≡ ok (cancelled State.launching admitted_pair.1)
unfolding program
admitted_then_cancelled = refl

admit-once_example :
    Operations.admit world "stage" "secret" (cancelled State.launching admitted_pair.1)
    ≡ err Result.revoked_token
admit-once_example =
    admit-once world "stage" "secret" "secret" admitted_pair.0 (ledger_in State.launching)
      admitted_pair.1 (cancelled State.launching admitted_pair.1)
      (launching_IsSound, boards-IsNormal) admitted_ok
      (Later.then Later.here (no_stage_drawn admitted_pair.1 admitted_draws)
        (Step.cancel "request" admitted_then_cancelled))

running_then_cancelled :
    Operations.cancel world "request" (ledger_in State.running)
    ≡ ok (cancelled State.running (ledger_in State.running))
unfolding program
running_then_cancelled = refl

row_there : lookup "stage" (ledger_in State.running).stages ≡ some (stage_in State.running)
unfolding program
row_there = refl

cancel-IsCancelled_example :
    (t : Stage) × (lookup "stage" (cancelled State.running (ledger_in State.running)).stages
      ≡ some t)
    × IsCancelled (stage_in State.running) t
cancel-IsCancelled_example =
    cancel-IsCancelled world "request" "stage" (stage_in State.running) (ledger_in State.running)
      (cancelled State.running (ledger_in State.running)) running-IsSound row_there refl refl
      running_then_cancelled

-- A stage that asks for the left board while another stage holds it.
abbrev asked : List Demand
asked = record { name = "left"; mode = Mode.exclusive; units = 1; group = Json.null } ∷ []

no_letters :
    All
      (λ t.
        All
          (λ (d : Demand).
            All
              (λ leaf. (lookup leaf boards ≡ none) × (lookup leaf t.allocation ≡ none))
              (Waiting.characters d.name))
          asked)
      (stage_in State.running ∷ [])
unfolding program
no_letters = ((((refl, refl), ((refl, refl), ((refl, refl), ((refl, refl), tt)))), tt), tt)

blockers-none_example : Waiting.blockers boards asked (stage_in State.running ∷ []) ≡ ok []
blockers-none_example = blockers-none boards asked (stage_in State.running ∷ []) no_letters

normalized_ok : Normalize.normalize_registry raw_registry ≡ ok first_ledger.registry
unfolding program
normalized_ok = refl

normalize_registry-distinct_example : Registry.distinct (physical_ids first_ledger.registry) ≡ true
normalize_registry-distinct_example =
    normalize_registry-distinct raw_registry first_ledger.registry normalized_ok
