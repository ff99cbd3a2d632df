-- ===== src/Ledger/Outcomes.antt =====
-- resource_queue.py: `_outcomes`, which leaves one message for each subscriber of a settled request.
use orchestrator_engine.Prelude.{
  ℕ, String, Bool, true, ◌&&◌, ◌||◌, Option, none, some, List, [], ◌∷◌, ◌++◌, ◌==◌, ltb, eqb,
  if◌then◌else◌, any, all, map, filter,
}
use text.Mathlib.Text.{is_lt}
use Prim.Native.String.{compare}
use orchestrator_engine.Json.{Fields}
use orchestrator_engine.Result.{Result, ok, ◌>>=◌}
use orchestrator_engine.Resources.Alternatives.{sorted}
use orchestrator_engine.Ledger.State.{
  State, is_terminal, same_state, Stage, Subscriber, Request, Generation, Message, World, Ledger,
  values,
}
use orchestrator_engine.Ledger.Save.{find_request}

-- stages(request)
unfoldable pub stages_of : String → Ledger → List Stage
stages_of request l = filter (λ s. s.request == request) (values l.stages)

abbrev pub in_state : State → Stage → Bool
in_state st s = same_state s.state st

unfoldable pub needs_recovery : List Stage → Bool
needs_recovery = any (in_state State.recovery_required)

-- A request has an outcome when a stage needs recovery or all of them are terminal.
unfoldable pub is_settled : List Stage → Bool
is_settled stages = needs_recovery stages || all (λ s. is_terminal s.state) stages

unfoldable pub status_of : List Stage → String
status_of stages =
    if needs_recovery stages
    then "action_required"
    else if all (λ s. in_state State.cancelled s || in_state State.skipped s) stages
    then "cancelled"
    else if all (in_state State.passed) stages
    then "passed"
    else "failed"

abbrev id_before : String × ℕ → String × ℕ → Bool
id_before (a, m) (b, n) = is_lt (compare a b) || (a == b && ltb m n)

unfoldable pub outcome_id : World → List Stage → String
outcome_id w stages = w.outcome_digest (status_of stages) (
    sorted id_before
      (map (λ s. (s.id, s.epoch)) (filter (in_state State.recovery_required) stages)))

abbrev pub of_subscriber : String → String → Generation → Bool
of_subscriber request subscriber g = g.request == request && g.subscriber == subscriber

-- ORDER BY generation DESC LIMIT 1
unfoldable pub latest : List Generation → Option Generation
latest [] = none
latest (g ∷ gs) = elim (latest gs) [
  | none ↦ some g
  | some h ↦ some (if ltb h.generation g.generation then g else h)
]

-- INSERT OR IGNORE INTO subscriber_history, keyed by request, subscriber and generation
unfoldable pub add_generation : Generation → List Generation → List Generation
add_generation g gs =
    if any (λ h. of_subscriber g.request g.subscriber h && eqb h.generation g.generation) gs
    then gs
    else gs ++ g ∷ []

-- INSERT OR IGNORE INTO outbox
unfoldable pub add_message : Message → List Message → List Message
add_message m ms = if any (λ n. n.id == m.id) ms then ms else ms ++ m ∷ []

-- {k: v for k, v in fields.items() if k != key}
unfoldable pub omit : String → Fields → Fields
omit key Fields.end = Fields.end
omit key (Fields.field k v fs) =
    let rest = omit key fs in if k == key then rest else Fields.field k v rest

-- PRIVATE_STAGE_FIELDS
unfoldable pub redact : Stage → Stage
redact s = record s {
  launch_token = none;
  maintenance_token = none;
  definition = omit "commands" s.definition;
}

abbrev pub message : World → Request → List Stage → Subscriber → ℕ → Message
message w r stages subscriber generation = record {
  id = w.delivery_id r.id subscriber.id generation (outcome_id w stages);
  request = r.id;
  project = r.project;
  external = r.external;
  status = status_of stages;
  outcome_id = outcome_id w stages;
  subscriber = subscriber;
  generation = generation;
  stages = map redact stages;
}

-- One round of the loop over the subscribers.
unfoldable pub notify : World → Request → List Stage → Subscriber → Ledger → Ledger
notify w r stages subscriber l =
    elim (latest (filter (λ g. of_subscriber r.id subscriber.id g && g.active) l.history)) [
      | some g ↦ record l {
        outbox = add_message (message w r stages subscriber g.generation) l.outbox;
      }
      | none ↦ record l {
        history =
            add_generation
              (record {
                request = r.id;
                subscriber = subscriber.id;
                generation = 1;
                body = subscriber;
                active = true;
              })
              l.history;
        outbox = add_message (message w r stages subscriber 1) l.outbox;
      }
    ]

unfoldable pub notify_all : World → Request → List Stage → List Subscriber → Ledger → Ledger
notify_all w r stages [] l = l
notify_all w r stages (s ∷ ss) l = notify_all w r stages ss (notify w r stages s l)

unfoldable pub outcome : World → String → Ledger → Result Ledger
outcome w request l =
    let stages = stages_of request l in
    if is_settled stages
    then (find_request request l >>= λ r. ok (notify_all w r stages r.subscribers l))
    else ok l

unfoldable pub outcomes : World → List String → Ledger → Result Ledger
outcomes w [] l = ok l
outcomes w (request ∷ requests) l = do l' ← outcome w request l; outcomes w requests l'
