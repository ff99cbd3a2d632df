-- ===== src/Events/Log.antt =====
-- core.py: write_terminal_event, write_followup_event and _retain_event_and_signal. A file is an entry
-- under its event's identifier, and each publication, which holds a lock, is one step.
pub mod Once
pub mod Steps
pub mod Reports
pub mod Agreement
pub mod Retry
use orchestrator_engine.Prelude.{
  ℕ, String, Bool, true, false, not, Option, none, some, List, [], ◌∷◌, ◌==◌, if◌then◌else◌,
  contains, any, Dict, lookup, put,
}
use orchestrator_engine.Json
use orchestrator_engine.Json.{Json, Fields}
use orchestrator_engine.Lease.Identity.{at}
use orchestrator_engine.Lease.Records.{assign, assign_some, as_object}
use orchestrator_engine.Result.{
  Result, ok, err, ◌>>=◌, ◌>>◌, guard, or_raise, key_error, no_task_id, no_operation_id,
  no_source_kind, bad_terminal_status, no_file, unreadable_event, conflicting_event, bad_not_before,
  naive_not_before,
}
use orchestrator_engine.Events.Ids.{validate_event_id, schema_version}

abbrev pub terminal_statuses : List String
terminal_statuses =
    "completed" ∷ "failed" ∷ "timed_out" ∷ "rate_limited" ∷ "invalid_result" ∷ "cancelled" ∷ []

abbrev pub followup_terminal_statuses : List String
followup_terminal_statuses =
    "completed" ∷ "failed" ∷ "cancelled" ∷ "timed_out" ∷ "action_required" ∷ "unavailable"
    ∷ "ambiguous" ∷ []

-- What datetime.fromisoformat makes of a text: nothing, a time without a zone, or the text of its UTC
-- time.
pub data Instant : Type 0 where
  unreadable_time naive_time : Instant
  utc : String → Instant

-- What a write finds outside: the project, the files (`digest_of` a path that is no file is none),
-- the paths, the clock and the identifiers that are made.
pub record Site : Type 0 where
  pub project_id : String
  pub resolve : String → String
  pub digest_of : String → Option String
  pub event_path : String → String
  pub signal_path : String → String
  pub now : String
  pub uuid4 : String
  pub followup_event_id : (source_kind operation_id : String) → String
  pub instant : String → Instant

-- The event files, where none is one that cannot be loaded, and the signal files.
pub record Log : Type 0 where
  pub events : Dict (Option Fields)
  pub signals : Dict Fields

abbrev pub text : String → String → Fields → Fields
text k v fs = Fields.field k (Json.str v) fs

-- ensure_file, and sha256_file of it.
unfoldable pub artifact : Site → String → Result (String × String)
artifact w path = do
  digest ← or_raise no_file (w.digest_of (w.resolve path))
  ok (w.resolve path, digest)

unfoldable pub is_conflicting : List String → (existing event : Fields) → Bool
is_conflicting immutable existing event =
    any (λ key. not (Json.eq (at key existing) (at key event))) immutable

-- What a write returns: the event that is retained.
abbrev pub Written : Type 0
Written = Fields × Log

unfoldable pub emit : Bool → (event_id : String) → Fields → Log → Log
emit false event_id signal l = l
emit true event_id signal l = record l { signals = put event_id signal l.signals }

-- The branch of an event that is there already.
unfoldable pub keep :
    List String
    → (event_id : String) → (emit_signal : Bool) → (event signal existing : Fields) → Log
    → Result Written
keep immutable event_id emit_signal event signal existing l =
    if is_conflicting immutable existing event then err conflicting_event else do
      created_at ← or_raise key_error (Json.get "created_at" existing)
      ok (existing, emit emit_signal event_id (assign "created_at" created_at signal) l)

unfoldable pub retain_at :
    List String
    → (event_id : String) → (emit_signal : Bool) → (event signal : Fields) → Log
    → Option (Option Fields)
    → Result Written
retain_at immutable event_id emit_signal event signal l none = ok (
  event,
  emit emit_signal event_id signal (record l { events = put event_id (some event) l.events }),
)
retain_at immutable event_id emit_signal event signal l (some none) = err unreadable_event
retain_at immutable event_id emit_signal event signal l (some (some existing)) =
    keep immutable event_id emit_signal event signal existing l

unfoldable pub retain_event_and_signal :
    List String
    → (event_id : String) → (emit_signal : Bool) → (event signal : Fields) → Log
    → Result Written
retain_event_and_signal immutable event_id emit_signal event signal l =
    retain_at immutable event_id emit_signal event signal l (lookup event_id l.events)

-- The arguments of write_terminal_event.
pub record Terminal : Type 0 where
  pub task_id : String
  pub terminal_status : String
  pub result_path : String
  pub evidence_path : String
  pub event_id : Option String
  pub wake_target : Option Fields
  pub emit_signal : Bool

abbrev pub given_id : String → Option String → String
given_id made none = made
given_id made (some id) = id

-- The parts that both kinds of event end in.
abbrev pub event_end : Site → (status : String) → (result evidence : String × String) → Fields
event_end w status (result, result_sha256) (evidence, evidence_sha256) =
    text "terminal_status" status (
      text "result_path" result (
        text "result_sha256" result_sha256 (
          text "evidence_path" evidence
            (text "evidence_sha256" evidence_sha256 (text "created_at" w.now Fields.end)))))

abbrev pub signal_end :
    Site → (id status : String) → (result evidence : String × String) → (requires : String) → Fields
signal_end w id status result evidence requires = text "event_path" (w.event_path id) (
    text "terminal_status" status (
      text "result_path" result.0 (
        text "evidence_path" evidence.0
          (text "created_at" w.now (text "requires" requires Fields.end)))))

abbrev pub terminal_event :
    Site → Terminal → (id : String) → (result evidence : String × String) → Fields
terminal_event w t id result evidence = assign_some "wake_target" (as_object t.wake_target) (
    Fields.field "schema_version" schema_version (
      text "kind" "WORKER_TERMINAL" (
        text "event_id" id (
          text "project_id" w.project_id
            (text "task_id" t.task_id (event_end w t.terminal_status result evidence))))))

abbrev pub terminal_signal :
    Site → Terminal → (id : String) → (result evidence : String × String) → Fields
terminal_signal w t id result evidence = assign_some "wake_target" (as_object t.wake_target) (
    Fields.field "schema_version" schema_version (
      text "kind" "LOCAL_AI_WORKER_FINISHED" (
        text "event_id" id (
          text "project_id" w.project_id (
            text "task_id" t.task_id
              (signal_end w id t.terminal_status result evidence "ORCHESTRATOR_REVIEW"))))))

abbrev pub terminal_keys : List String
terminal_keys =
    "kind" ∷ "event_id" ∷ "project_id" ∷ "task_id" ∷ "terminal_status" ∷ "result_path"
    ∷ "result_sha256" ∷ "evidence_path" ∷ "evidence_sha256" ∷ "wake_target" ∷ []

unfoldable pub write_terminal_event : Site → Terminal → Log → Result Written
write_terminal_event w t l = do
  guard (not (t.task_id == "")) no_task_id
  guard (contains terminal_statuses t.terminal_status) bad_terminal_status
  result ← artifact w t.result_path
  evidence ← artifact w t.evidence_path
  id ← validate_event_id (Json.str (given_id w.uuid4 t.event_id))
  retain_event_and_signal terminal_keys id t.emit_signal (terminal_event w t id result evidence)
      (terminal_signal w t id result evidence) l

-- The arguments of write_followup_event.
pub record Followup : Type 0 where
  pub operation_id : String
  pub source_kind : String
  pub terminal_status : String
  pub result_path : String
  pub evidence_path : String
  pub event_id : Option String
  pub wake_target : Option Fields
  pub emit_signal : Bool
  pub not_before : Option String

unfoldable pub normalized : Instant → Result (Option Json)
normalized Instant.unreadable_time = err bad_not_before
normalized Instant.naive_time = err naive_not_before
normalized (Instant.utc text) = ok (some (Json.str text))

unfoldable pub earliest : Site → Option String → Result (Option Json)
earliest w none = ok none
earliest w (some not_before) = normalized (w.instant not_before)

abbrev pub followup_event :
    Site → Followup → (id : String) → (result evidence : String × String) → Option Json → Fields
followup_event w f id result evidence not_before = assign_some "not_before" not_before (
    assign_some "wake_target" (as_object f.wake_target) (
      Fields.field "schema_version" schema_version (
        text "kind" "ORCHESTRATOR_TERMINAL" (
          text "event_id" id (
            text "project_id" w.project_id (
              text "source_kind" f.source_kind (
                text "operation_id" f.operation_id
                  (event_end w f.terminal_status result evidence))))))))

abbrev pub followup_signal :
    Site → Followup → (id : String) → (result evidence : String × String) → Option Json → Fields
followup_signal w f id result evidence not_before = assign_some "not_before" not_before (
    assign_some "wake_target" (as_object f.wake_target) (
      Fields.field "schema_version" schema_version (
        text "kind" "ORCHESTRATOR_FOLLOWUP_SIGNAL" (
          text "event_id" id (
            text "project_id" w.project_id (
              text "source_kind" f.source_kind (
                text "operation_id" f.operation_id
                  (signal_end w id f.terminal_status result evidence "ORCHESTRATOR_FOLLOWUP"))))))))

abbrev pub followup_keys : List String
followup_keys =
    "kind" ∷ "event_id" ∷ "project_id" ∷ "source_kind" ∷ "operation_id" ∷ "terminal_status"
    ∷ "result_path" ∷ "result_sha256" ∷ "evidence_path" ∷ "evidence_sha256" ∷ "wake_target"
    ∷ "not_before" ∷ []

unfoldable pub write_followup_event : Site → Followup → Log → Result Written
write_followup_event w f l = do
  guard (not (f.operation_id == "")) no_operation_id
  guard (not (f.source_kind == "")) no_source_kind
  guard (contains followup_terminal_statuses f.terminal_status) bad_terminal_status
  result ← artifact w f.result_path
  evidence ← artifact w f.evidence_path
  id ←
      validate_event_id
        (Json.str (given_id (w.followup_event_id f.source_kind f.operation_id) f.event_id))
  not_before ← earliest w f.not_before
  retain_event_and_signal followup_keys id f.emit_signal
      (followup_event w f id result evidence not_before)
      (followup_signal w f id result evidence not_before) l
