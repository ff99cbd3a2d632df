-- ===== src/Ledger/Requests.antt =====
-- resource_queue.py: `configure`, `submit`, `request`. A subscriber stands here as
-- `validate_subscriber` accepts it.
use orchestrator_engine.Prelude.{
  suc, String, Bool, true, false, not, ◌&&◌, Option, none, some, List, [], ◌∷◌, ◌++◌, ◌==◌, eqb,
  all, find, contains, keys, lookup, put, length,
}
use orchestrator_engine.Json
use orchestrator_engine.Json.{Json, Fields}
use orchestrator_engine.Result.{
  Result, ok, err, ◌>>=◌, ◌>>◌, guard, next, active_resource_change, pending_requests,
  different_inputs, unknown_dependency, no_assignment,
}
use orchestrator_engine.Resources.Registry.{Registry, Entry, fields_of, identifier}
use orchestrator_engine.Resources.Claims.{Allocation}
use orchestrator_engine.Resources.Normalize.{normalize_registry}
use orchestrator_engine.Resources.Assignments.{Scope, assignments}
use orchestrator_engine.Ledger.State.{
  State, Stage, Subscriber, Request, Notice, World, Ledger, values, active_stages,
}
use orchestrator_engine.Ledger.Save.{now, tick, next_sequence, advance, event, save}
use orchestrator_engine.Ledger.Outcomes.{in_state}
use orchestrator_engine.Ledger.Plans.{Definition, after_names, names_of, read_plan}

-- registry.get(leaf) == old.get(leaf)
unfoldable pub same_entry : Option Entry → Option Entry → Bool
same_entry none none = true
same_entry (some e) (some f) = Json.eq (Json.obj (fields_of e)) (Json.obj (fields_of f))
same_entry _ _ = false

-- registry == old
unfoldable pub same_registry : Registry → Registry → Bool
same_registry new old =
    eqb (length new) (length old)
    && all (λ name. same_entry (lookup name new) (lookup name old)) (keys new)

-- The tests of `configure` on one active stage.
unfoldable pub check_active : Registry → Registry → Stage → Result (Unit {0})
check_active new old s = do
  guard (all (λ leaf. same_entry (lookup leaf new) (lookup leaf old)) (keys s.allocation))
      active_resource_change
  guard (not (in_state State.waiting s && not (same_registry new old))) pending_requests

unfoldable pub check_stages : Registry → Registry → List Stage → Result (Unit {0})
check_stages new old [] = ok tt
check_stages new old (s ∷ ss) = do check_active new old s; check_stages new old ss

unfoldable pub configure : World → Json → Ledger → Result Ledger
configure w raw l = do
  new ← normalize_registry raw
  check_stages new l.registry (active_stages l)
  ok (event w "registry" (Notice.configured new) (record l { registry = new }))

-- A search with the defaults of `assignments`.
abbrev pub alone_in : Registry → Scope
alone_in reg = record { registry = reg; others = []; excluded = []; priority = []; required = [] }

unfoldable pub some_assignment : Option Allocation → Result (Unit {0})
some_assignment none = err no_assignment
some_assignment (some a) = ok tt

unfoldable pub check_definition : Registry → List String → Definition → Result (Unit {0})
check_definition reg names d = do
  guard (all (contains names) (after_names d.after)) unknown_dependency
  first ← next (assignments (alone_in reg) d.needs)
  some_assignment first

unfoldable pub check_definitions : Registry → List String → List Definition → Result (Unit {0})
check_definitions reg names [] = ok tt
check_definitions reg names (d ∷ ds) = do
  check_definition reg names d
  check_definitions reg names ds

-- The new stage. Its definition names none of the fields that only the ledger writes.
unfoldable pub new_stage : World → String → String → Definition → Ledger → Stage
new_stage w project request d l = record {
  id = w.uuid l.draws;
  name = d.name;
  request = request;
  project = project;
  after = d.after;
  needs = d.needs;
  definition = d.fields;
  state = State.waiting;
  seq = next_sequence l;
  reason = some "dependency_wait";
  epoch = 0;
  allocation = [];
  granted_allocation = [];
  resource_incarnations = [];
  protection = none;
  launch_token = none;
  maintenance_token = none;
  cancel_requested = false;
  supervisor_identity = Json.null;
  runner_evidence = Fields.end;
  outcome = none;
  evidence = Json.null;
  created_at = now w l;
  ready_at = none;
  ready_seq = none;
  granted_at = none;
  started_at = none;
  finished_at = none;
  transition_at = none;
  wait_seconds = [];
  bypass_count = 0;
  blockers = [];
}

-- What drawing an id, a number and the time leaves.
abbrev pub drawn : Ledger → Ledger
drawn l = record (advance (tick l)) { draws = suc l.draws }

unfoldable pub add_stages : World → String → String → List Definition → Ledger → Ledger
add_stages w project request [] l = l
add_stages w project request (d ∷ ds) l =
    add_stages w project request ds (save w (new_stage w project request d l) (drawn l)).1

-- The row of a request and the first generation of its subscriber.
unfoldable pub add_request : World → String → String → Json → Option Subscriber → Ledger → Ledger
add_request w project external plan subscriber l =
    let id = w.uuid l.draws in
    let r : Request = record {
      id = id;
      project = project;
      external = external;
      plan = plan;
      subscribers = elim subscriber [ none ↦ [] | some s ↦ s ∷ [] ];
      created_at = now w l;
    } in
    record (tick l) {
      draws = suc l.draws;
      requests = put id r l.requests;
      history = elim subscriber [
        | none ↦ l.history
        | some s ↦
            l.history
            ++ record { request = id; subscriber = s.id; generation = 1; body = s; active = true }
              ∷ []
      ];
    }

-- SELECT id, body FROM requests WHERE project=? AND external=?
unfoldable pub known_request : String → String → List Request → Option Request
known_request project external = find λ r. r.project == project && r.external == external

unfoldable pub submit_new :
    World
    → String
    → String
    → Json
    → List Definition
    → Option Subscriber
    → Ledger
    → Result (String × Ledger)
submit_new w project external plan ds subscriber l = do
  check_definitions l.registry (names_of ds) ds
  let id = w.uuid l.draws
  let l' = add_stages w project id ds (add_request w project external plan subscriber l)
  ok (id, event w id (Notice.submitted project external) l')

unfoldable pub submit :
    World → Json → Json → Fields → Option Subscriber → Ledger → Result (String × Ledger)
submit w project external plan subscriber l = do
  project ← identifier project
  external ← identifier external
  ds ← read_plan plan
  elim (known_request project external (values l.requests)) [
    | none ↦ submit_new w project external (Json.obj plan) ds subscriber l
    | some r ↦ do guard (Json.eq r.plan (Json.obj plan)) different_inputs; ok (r.id, l)
  ]
