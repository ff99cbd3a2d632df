-- ===== src/Ledger/Snapshot.antt =====
-- resource_queue.py: `snapshot`, the report of a project on its stages and deliveries, and
-- `stages`, with its conditions.
pub mod Private
use orchestrator_engine.Prelude.{
  ℕ, String, Bool, true, false, not, ◌&&◌, ◌||◌, Option, none, some, List, [], ◌∷◌, ◌==◌, any, all,
  map, filter, lookup, if◌then◌else◌,
}
use orchestrator_engine.Result.{Result, ok, err, ◌>>=◌, ◌>>◌, guard, foreign_request}
use orchestrator_engine.Ledger.State.{State, Stage, Message, Request, Ledger, is_terminal, values}
use orchestrator_engine.Ledger.Save.{find_request}
use orchestrator_engine.Ledger.Outcomes.{in_state, redact}

-- The columns of an outbox row that its delivery writes, by the row's id.
pub record Delivery : Type 0 where
  pub id : String
  pub delivered : Bool
  pub attempts : ℕ
  pub last_error : Option String

-- What is reported, less its constant parts and the authority.
pub record Snapshot : Type 0 where
  pub stages : List Stage
  pub delivery : List Delivery
  pub terminal : Bool
  pub action_required : Bool

-- JOIN requests AS r ON request=r.id WHERE r.project=?
unfoldable pub of_project : Option Request → String → Bool
of_project none project = false
of_project (some r) project = r.project == project

-- A None and the empty text select nothing.
unfoldable pub selects : Option String → Bool
selects none = false
selects (some request) = not (request == "")

unfoldable pub is_request : Option String → String → Bool
is_request none request = false
is_request (some selected) request = request == selected

-- stages(request, project=project), and without a request stages(active=True, project=project)
unfoldable pub reported : String → Option String → Ledger → List Stage
reported project request l =
    filter
      (λ s.
        of_project (lookup s.request l.requests) project
        && (if selects request then is_request request s.request else not (is_terminal s.state)))
      (values l.stages)

-- ? IS NULL OR r.id=?
unfoldable pub is_reported : Option String → String → Bool
is_reported none request = true
is_reported (some selected) request = request == selected

unfoldable pub deliveries :
    (delivery_of : String → Delivery) → String → Option String → Ledger → List Delivery
deliveries delivery_of project request l =
    map (λ m. delivery_of m.id)
      (filter
        (λ m. of_project (lookup m.request l.requests) project && is_reported request m.request)
        l.outbox)

unfoldable pub is_message : Option String → Bool
is_message none = false
is_message (some error) = not (error == "")

abbrev pub has_failed : Delivery → Bool
has_failed d = is_message d.last_error && not d.delivered

-- request(request_id)["project"] != project
unfoldable pub check_project : String → Option String → Ledger → Result (Unit {0})
check_project project none l = ok tt
check_project project (some request) l =
    if request == ""
    then ok tt
    else (find_request request l >>= λ r. guard (r.project == project) foreign_request)

-- bool(list)
unfoldable pub is_any {ℓ} : {A : Type ℓ} → List A → Bool
is_any [] = false
is_any (x ∷ xs) = true

unfoldable pub snapshot :
    (delivery_of : String → Delivery)
    → (project : String) → (request : Option String) → Ledger
    → Result Snapshot
snapshot delivery_of project request l = do
  check_project project request l
  let stages = map redact (filter (λ s. s.project == project) (reported project request l))
  let delivery = deliveries delivery_of project request l
  ok (record {
    stages = stages;
    delivery = delivery;
    terminal = is_any stages && all (λ s. is_terminal s.state) stages;
    action_required = any (in_state State.recovery_required) stages || any has_failed delivery;
  })
