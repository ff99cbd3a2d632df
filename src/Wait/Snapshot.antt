-- ===== src/Wait/Snapshot.antt =====
-- operation_wait.py: operation_snapshot, the state of one target out of its module's report.
pub mod Sorted
use Prim.Native.Char.{Char}
use orchestrator_engine.Prelude.{
  ℕ, zero, suc, String, Bool, true, false, not, ◌&&◌, ◌||◌, Option, none, some, List, [], ◌∷◌, ◌==◌,
  contains, if◌then◌else◌,
}
use orchestrator_engine.Json
use orchestrator_engine.Json.{Json, Fields, Items}
use orchestrator_engine.Resources.Registry.{truthy}
use orchestrator_engine.Lease.Identity.{at, is_null}
use orchestrator_engine.Lease.Stat.{chars, text}
use orchestrator_engine.Result.{Result, ok, err, ◌>>=◌, unavailable_status}
use orchestrator_engine.Wait.Targets.{Kind, Target, parse_target}

-- What the wait sees: at each step, the report of a target's module (worker_wait_snapshot,
-- check_status, and monitor_status of the two GitHub modules, with the stale threshold given), the
-- clock without the time slept, and Python's str() of a value that is no text.
pub record Reports : Type 0 where
  pub report : ℕ → Target → Result Fields
  pub clock : ℕ → ℕ
  pub shown : Json → String
  pub on_update : ℕ → Result (Unit {0})
  pub sleeper : ℕ → Result (Unit {0})

abbrev pub active_statuses : List String
active_statuses = "starting" ∷ "running" ∷ "cancelling" ∷ []

abbrev pub broken_statuses : List String
broken_statuses = "crashed" ∷ "stalled" ∷ "invalid" ∷ []

-- TERMINAL_STATUSES of local_checks.py
abbrev pub check_ends : List String
check_ends = "passed" ∷ "failed" ∷ "errored" ∷ "cancelled" ∷ []

-- TERMINAL_MONITOR_STATUSES of github_actions.py
abbrev pub ci_ends : List String
ci_ends = "completed" ∷ "failed" ∷ "cancelled" ∷ "timed_out" ∷ "unavailable" ∷ "ambiguous" ∷ []

-- TERMINAL_STATUSES and SUCCESS_STATUSES of github_pull_requests.py
abbrev pub pr_ends : List String
pr_ends =
    "ready" ∷ "merged" ∷ "failed_checks" ∷ "changes_requested" ∷ "conflicting" ∷ "head_changed"
    ∷ "closed" ∷ "cancelled" ∷ "timed_out" ∷ "unavailable" ∷ "ambiguous" ∷ "failed" ∷ []

abbrev pub pr_successes : List String
pr_successes = "ready" ∷ "merged" ∷ []

pub record Snapshot : Type 0 where
  pub target : String
  pub kind : Kind
  pub operation_id : String
  pub status : String
  pub terminal : Bool
  pub successful : Bool
  pub action_required : Bool
  pub copied : Fields
  pub health : Option Fields

unfoldable pub str_of : Reports → Json → String
str_of h (Json.str s) = s
str_of h v = h.shown v

-- str(item.get("status") or "unknown")
unfoldable pub status_in : Reports → Fields → String
status_in h item = if truthy (at "status" item) then str_of h (at "status" item) else "unknown"

unfoldable pub requires_action : (status : String) → (terminal : Bool) → Bool
requires_action status terminal =
    contains broken_statuses status || not terminal && not (contains active_statuses status)

abbrev pub max_error : ℕ
max_error = 500

unfoldable pub cut_to : {A : Type 0} → ℕ → List A → List A
cut_to zero xs = []
cut_to (suc n) [] = []
cut_to (suc n) (x ∷ xs) = x ∷ cut_to n xs

unfoldable pub error_in : Json → Json
error_in (Json.obj first) = at "error" first
error_in first = first

unfoldable pub invalid_item : Reports → Json → Fields
invalid_item h first = Fields.field "status" (Json.str "invalid") (
    Fields.field "failure_kind" (Json.str "descriptor_invalid") (
      Fields.field "error" (Json.str (text (cut_to max_error (chars (str_of h (error_in first))))))
        Fields.end))

unfoldable pub from_invalid : Reports → Json → Result Fields
from_invalid h (Json.arr (Items.cons first rest)) = ok (invalid_item h first)
from_invalid h _ = err unavailable_status

unfoldable pub item_in : Reports → Fields → Json → Result Fields
item_in h report (Json.arr (Items.cons (Json.obj item) Items.nil)) = ok item
item_in h report _ = from_invalid h (at "invalid" report)

unfoldable pub single_report_item : Reports → (key : String) → Fields → Result Fields
single_report_item h key report = item_in h report (at key report)

unfoldable pub report_item : Reports → Kind → Fields → Result Fields
report_item h Kind.worker report = ok report
report_item h Kind.check report = single_report_item h "checks" report
report_item h Kind.ci report = single_report_item h "monitors" report
report_item h Kind.pr report = single_report_item h "monitors" report

-- terminal, successful and action_required.
unfoldable pub judged : Kind → Fields → (status : String) → Bool × Bool × Bool
judged Kind.worker item status =
    let terminal = truthy (at "terminal" item) in
    (terminal, terminal && status == "completed", not (is_null (at "health" item)))
judged Kind.check item status =
    let terminal = contains check_ends status in
    (terminal, terminal && status == "passed", requires_action status terminal)
judged Kind.ci item status =
    let terminal = contains ci_ends status in
    (
      terminal,
      terminal && (status == "completed" && Json.eq (at "ci_conclusion" item) (Json.str "success")),
      requires_action status terminal,
    )
judged Kind.pr item status =
    let terminal = contains pr_ends status in
    (terminal, terminal && contains pr_successes status, requires_action status terminal)

abbrev pub copied_keys : List String
copied_keys =
    "worker" ∷ "suite" ∷ "ci_conclusion" ∷ "failure_kind" ∷ "result_path" ∷ "summary_path"
    ∷ "evidence_path" ∷ "event_path" ∷ "finished_at" ∷ "duration_seconds" ∷ "wake_policy" ∷ []

-- The entries of these keys that are there and no None.
unfoldable pub copy : List String → Fields → Fields
copy [] item = Fields.end
copy (k ∷ ks) item =
    let rest = copy ks item in if is_null (at k item) then rest else Fields.field k (at k item) rest

unfoldable pub health_in : Json → Option Fields
health_in (Json.obj health) =
    some (copy ("status" ∷ "message" ∷ "heartbeat_age_seconds" ∷ []) health)
health_in _ = none

unfoldable pub snapshot_of :
    (target : String) → Target → Fields → String → Bool × Bool × Bool → Snapshot
snapshot_of target t item status (terminal, successful, action_required) = record {
  target = target;
  kind = t.kind;
  operation_id = t.id;
  status = status;
  terminal = terminal;
  successful = successful;
  action_required = action_required;
  copied = copy copied_keys item;
  health = health_in (at "health" item);
}

unfoldable pub operation_snapshot : Reports → (step : ℕ) → (target : String) → Result Snapshot
operation_snapshot h step target = do
  t ← parse_target target
  report ← h.report step t
  item ← report_item h t.kind report
  ok (snapshot_of target t item (status_in h item) (judged t.kind item (status_in h item)))
