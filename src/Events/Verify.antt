-- ===== src/Events/Verify.antt =====
-- core.py: verify_terminal_event and subject_fields.
pub mod Accepts
use orchestrator_engine.Prelude.{
  String, Bool, true, false, not, Option, none, some, List, [], ◌∷◌, ◌==◌, if◌then◌else◌, contains,
  lookup,
}
use orchestrator_engine.Json
use orchestrator_engine.Json.{Json, Fields}
use orchestrator_engine.Lease.Identity.{at}
use orchestrator_engine.Result.{
  Result, ok, err, ◌>>=◌, ◌>>◌, guard, or_raise, type_error, unreadable_event, bad_event_schema,
  bad_event_kind, bad_event_identity, bad_event_status, no_artifact, lost_artifact,
  changed_artifact, no_subject,
}
use orchestrator_engine.Events.Ids.{validate_event_id, is_supported_schema_version}
use orchestrator_engine.Events.Log.{Site, Log, terminal_statuses, followup_terminal_statuses}

-- load_object
unfoldable pub loaded : Option (Option Fields) → Result Fields
loaded none = err unreadable_event
loaded (some none) = err unreadable_event
loaded (some (some event)) = ok event

-- `value in set of texts`, where a list or an object has no hash.
unfoldable pub is_member : List String → Json → Result Bool
is_member texts (Json.str s) = ok (contains texts s)
is_member texts (Json.arr _) = err type_error
is_member texts (Json.obj _) = err type_error
is_member texts _ = ok false

unfoldable pub is_worker_kind : Json → Bool
is_worker_kind kind = Json.eq kind (Json.str "WORKER_TERMINAL")

abbrev pub event_kinds : List String
event_kinds = "WORKER_TERMINAL" ∷ "ORCHESTRATOR_TERMINAL" ∷ []

abbrev pub identity_keys : (worker : Bool) → List String
identity_keys true = "event_id" ∷ "project_id" ∷ "task_id" ∷ []
identity_keys false = "event_id" ∷ "project_id" ∷ "source_kind" ∷ "operation_id" ∷ []

abbrev pub allowed_statuses : (worker : Bool) → List String
allowed_statuses true = terminal_statuses
allowed_statuses false = followup_terminal_statuses

-- isinstance(value, str) and value
unfoldable pub is_text : Json → Bool
is_text (Json.str s) = not (s == "")
is_text _ = false

unfoldable pub check_identity : List String → Fields → Result (Unit {0})
check_identity [] event = ok tt
check_identity (key ∷ keys) event =
    guard (is_text (at key event)) bad_event_identity >> check_identity keys event

unfoldable pub check_digest : Option String → (expected : String) → Result (Unit {0})
check_digest none expected = err lost_artifact
check_digest (some digest) expected = guard (digest == expected) changed_artifact

unfoldable pub check_artifact : Site → (path expected : Json) → Result (Unit {0})
check_artifact w (Json.str path) (Json.str expected) =
    check_digest (w.digest_of (w.resolve path)) expected
check_artifact w _ _ = err no_artifact

unfoldable pub verify_event : Site → Fields → Result Fields
verify_event w event = do
  guard (is_supported_schema_version (at "schema_version" event)) bad_event_schema
  known ← is_member event_kinds (at "kind" event)
  guard known bad_event_kind
  check_identity (identity_keys (is_worker_kind (at "kind" event))) event
  validate_event_id (at "event_id" event)
  allowed ←
      is_member (allowed_statuses (is_worker_kind (at "kind" event))) (at "terminal_status" event)
  guard allowed bad_event_status
  check_artifact w (at "result_path" event) (at "result_sha256" event)
  check_artifact w (at "evidence_path" event) (at "evidence_sha256" event)
  ok event

-- verify_terminal_event of the file under `id`.
unfoldable pub verify_terminal_event : Site → (id : String) → Log → Result Fields
verify_terminal_event w id l = loaded (lookup id l.events) >>= verify_event w

-- What events, signals and receipts are about.
unfoldable pub source_field : (source_kind : Json) → Fields
source_field (Json.str s) =
    if s == "" then Fields.end else Fields.field "source_kind" (Json.str s) Fields.end
source_field _ = Fields.end

unfoldable pub subject_fields : Fields → Result Fields
subject_fields value =
    if is_text (at "task_id" value)
    then ok (Fields.field "task_id" (at "task_id" value) Fields.end)
    else if is_text (at "operation_id" value)
    then ok (
        Fields.field "operation_id" (at "operation_id" value)
          (source_field (at "source_kind" value)))
    else err no_subject
