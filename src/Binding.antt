-- ===== src/Binding.antt =====
-- src/orchestrator_engine/binding.py: the host that a wake-up is for, as a file and as the target that an
-- event carries; and validate_subscriber of resource_queue.py, which checks such targets.
pub mod Captured
pub mod Bound
use orchestrator_engine.Prelude.{
  String, Bool, true, false, not, ◌&&◌, Option, none, some, List, [], ◌∷◌, ◌==◌, if◌then◌else◌,
  contains, any, all,
}
use orchestrator_engine.Json
use orchestrator_engine.Json.{Json, Fields}
use orchestrator_engine.Lease.Identity.{at}
use orchestrator_engine.Lease.Process.{Read}
use orchestrator_engine.Lease.Records.{assign, assign_some}
use orchestrator_engine.Result.{
  Result, ok, err, ◌>>=◌, ◌>>◌, guard, or_raise, bad_host, no_thread_id, bad_binding_schema,
  bad_binding_kind, bad_codex_command, no_binding, bad_target_schema, bad_target_kind,
  no_captured_at, bad_captured_at, naive_captured_at, bad_subscription, bad_wake, bad_wake_policy,
  bad_wake_target, unreadable,
}
use orchestrator_engine.Resources.Registry.{identifier}
use orchestrator_engine.Events.Ids.{is_supported_schema_version, schema_version, validate_event_id}
use orchestrator_engine.Events.Log.{Instant}
use orchestrator_engine.Events.Verify.{is_member, is_text}

abbrev pub binding_kind : Json
binding_kind = Json.str "ORCHESTRATOR_BINDING"

abbrev pub wake_target_kind : Json
wake_target_kind = Json.str "ORCHESTRATOR_WAKE_TARGET"

abbrev pub supported_hosts : List String
supported_hosts = "codex" ∷ "claude" ∷ "vscode" ∷ []

abbrev pub hosts_requiring_thread_id : List String
hosts_requiring_thread_id = "codex" ∷ []

-- A text that is given and not empty.
unfoldable pub filled : Option String → Option Json
filled none = none
filled (some s) = if s == "" then none else some (Json.str s)

unfoldable pub is_given : Option Json → Bool
is_given none = false
is_given (some v) = true

-- The file that is written, which is also what is returned, less its path.
unfoldable pub write_binding :
    (host : String) (target_thread_id codex_command : Option String) (now : String) → Result Fields
write_binding host target_thread_id codex_command now = do
  guard (contains supported_hosts host) bad_host
  guard (not (contains hosts_requiring_thread_id host && not (is_given (filled target_thread_id))))
      no_thread_id
  ok (
      assign_some "codex_command" (filled codex_command) (
        assign_some "target_thread_id" (filled target_thread_id) (
          Fields.field "schema_version" schema_version (
            Fields.field "kind" binding_kind (
              Fields.field "host" (Json.str host)
                (Fields.field "created_at" (Json.str now) Fields.end))))))

unfoldable pub is_command : Json → Bool
is_command Json.null = true
is_command (Json.str _) = true
is_command _ = false

unfoldable pub validate_binding : Fields → Result (Unit {0})
validate_binding binding = do
  guard (is_supported_schema_version (at "schema_version" binding)) bad_binding_schema
  guard (Json.eq (at "kind" binding) binding_kind) bad_binding_kind
  supported ← is_member supported_hosts (at "host" binding)
  guard supported bad_host
  required ← is_member hosts_requiring_thread_id (at "host" binding)
  guard (not (required && not (is_text (at "target_thread_id" binding)))) no_thread_id
  guard (is_command (at "codex_command" binding)) bad_codex_command

-- The file binding.json.
unfoldable pub load_binding : (binding_path : String) → Read Fields → Result (Option Fields)
load_binding binding_path Read.missing = ok none
load_binding binding_path Read.failed = err unreadable
load_binding binding_path (Read.content binding) =
    validate_binding binding >> ok (some (assign "binding_path" (Json.str binding_path) binding))

unfoldable pub require_binding : (binding_path : String) → Read Fields → Result Fields
require_binding binding_path file = do
  binding ← load_binding binding_path file
  or_raise no_binding binding

-- The parts of a binding that a target has too, where they are there.
abbrev pub routed : (from onto : Fields) → Fields
routed from onto =
    assign_some "codex_command" (Json.get "codex_command" from)
      (assign_some "target_thread_id" (Json.get "target_thread_id" from) onto)

unfoldable pub wake_target_from_binding : (now : String) → Fields → Result Fields
wake_target_from_binding now binding =
    validate_binding binding
    >> ok (
        routed binding (
          Fields.field "schema_version" schema_version (
            Fields.field "kind" wake_target_kind (
              Fields.field "host" (at "host" binding)
                (Fields.field "captured_at" (Json.str now) Fields.end)))))

unfoldable pub check_instant : Instant → Result (Unit {0})
check_instant Instant.unreadable_time = err bad_captured_at
check_instant Instant.naive_time = err naive_captured_at
check_instant (Instant.utc text) = ok tt

unfoldable pub check_captured_at : (instant : String → Instant) → Json → Result (Unit {0})
check_captured_at instant (Json.str captured_at) = check_instant (instant captured_at)
check_captured_at instant _ = err no_captured_at

abbrev pub binding_of : Fields → Fields
binding_of target = routed target (
    Fields.field "schema_version" (at "schema_version" target)
      (Fields.field "kind" binding_kind (Fields.field "host" (at "host" target) Fields.end)))

unfoldable pub validate_wake_target : (instant : String → Instant) → Fields → Result (Unit {0})
validate_wake_target instant target = do
  guard (is_supported_schema_version (at "schema_version" target)) bad_target_schema
  guard (Json.eq (at "kind" target) wake_target_kind) bad_target_kind
  check_captured_at instant (at "captured_at" target)
  validate_binding (binding_of target)

unfoldable pub clear_binding : (binding_path : String) → Read Fields → Fields × Read Fields
clear_binding binding_path file = (cleared (existed file), Read.missing)
  where
    existed : Read Fields → String
    existed Read.missing = "absent"
    existed _ = "cleared"

    cleared : String → Fields
    cleared status = Fields.field "schema_version" schema_version (
        Fields.field "kind" binding_kind (
          Fields.field "status" (Json.str status)
            (Fields.field "binding_path" (Json.str binding_path) Fields.end)))

-- The keys that a subscriber may have.
abbrev pub subscriber_keys : List String
subscriber_keys = "id" ∷ "wake_target" ∷ "wake" ∷ "wake_policy" ∷ "check_id" ∷ []

unfoldable pub has_only : List String → Fields → Bool
has_only keys Fields.end = true
has_only keys (Fields.field k v fs) = contains keys k && has_only keys fs

unfoldable pub check_wake : Option Json → Result (Unit {0})
check_wake none = ok tt
check_wake (some (Json.bool _)) = ok tt
check_wake (some _) = err bad_wake

unfoldable pub is_wake_policy : Json → Bool
is_wake_policy (Json.str s) = contains ("never" ∷ "always" ∷ "on-failure" ∷ []) s
is_wake_policy _ = false

unfoldable pub check_check_id : Option Json → Result (Unit {0})
check_check_id none = ok tt
check_check_id (some id) = validate_event_id id >> ok tt

unfoldable pub check_target : (instant : String → Instant) → Json → Result (Unit {0})
check_target instant Json.null = ok tt
check_target instant (Json.obj target) = validate_wake_target instant target
check_target instant _ = err bad_wake_target

unfoldable pub validate_subscriber : (instant : String → Instant) → Json → Result (Unit {0})
validate_subscriber instant (Json.obj subscriber) = do
  guard (has_only subscriber_keys subscriber) bad_subscription
  identifier (at "id" subscriber)
  check_wake (Json.get "wake" subscriber)
  guard (is_wake_policy (Json.get_or "wake_policy" (Json.str "never") subscriber)) bad_wake_policy
  check_check_id (Json.get "check_id" subscriber)
  check_target instant (at "wake_target" subscriber)
validate_subscriber instant _ = err bad_subscription
