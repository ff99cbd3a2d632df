-- ===== src/Examples/Bindings.antt =====
-- A host that is bound, and a subscriber for it.
use orchestrator_engine.Prelude.{String, ◌≡◌, refl, true, false, none, some, [], ◌∷◌, lookup, put}
use orchestrator_engine.Json
use orchestrator_engine.Json.{Json, Fields}
use orchestrator_engine.Lease.Identity.{at}
use orchestrator_engine.Lease.Process.{Read}
use orchestrator_engine.Lease.Records
use orchestrator_engine.Result.{ok}
use orchestrator_engine.Events.Ids.{schema_version}
use orchestrator_engine.Events.Log.{Instant}
use orchestrator_engine.Events.Verify
use orchestrator_engine.Resources.Registry
use orchestrator_engine.Ledger.State.{State, Subscriber, Ledger, Notice, values, same_state}
use orchestrator_engine.Ledger.Save
use orchestrator_engine.Ledger.Outcomes
use orchestrator_engine.Ledger.Subscriptions
use orchestrator_engine.Ledger.Intake
use orchestrator_engine.Ledger.Intake.{subscribe_for}
use orchestrator_engine.Ledger.Intake.Addressed.{AllAddressed, Taken, Taken-AllAddressed}
use orchestrator_engine.Examples.{world, ledger_in}
use orchestrator_engine.Binding
use orchestrator_engine.Binding.{
  write_binding, require_binding, wake_target_from_binding, validate_wake_target, filled,
}
use orchestrator_engine.Binding.Bound.{or_null, write_binding-captured}

program : Unit {0}
unfolding Records.assign Records.assign_some Binding.filled Binding.is_given Binding.write_binding
    Binding.is_command Binding.validate_binding Binding.check_instant Binding.check_captured_at
    Binding.validate_wake_target Binding.has_only Binding.check_wake Binding.is_wake_policy
    Binding.check_check_id Binding.check_target Binding.validate_subscriber Verify.is_member
    Verify.is_text Json.get Json.get_or Json.eq Json.int_eq Json.size Json.fields_in lookup put
    values same_state Registry.identifier Save.event Save.find_request Outcomes.stages_of
    Outcomes.needs_recovery Outcomes.is_settled Outcomes.latest Outcomes.outcome Outcomes.outcomes
    Subscriptions.may_follow Subscriptions.with_history Subscriptions.deactivate
    Subscriptions.next_generation Subscriptions.resubscribed Subscriptions.subscribe Intake.received
    Intake.subscribe_for
program = tt

abbrev text : String → String → Fields → Fields
text k v fs = Fields.field k (Json.str v) fs

abbrev binding : Fields
binding = Fields.field "schema_version" schema_version (
    text "kind" "ORCHESTRATOR_BINDING"
      (text "host" "codex" (text "created_at" "noon" (text "target_thread_id" "t1" Fields.end))))

abbrev target : Fields
target = Fields.field "schema_version" schema_version (
    text "kind" "ORCHESTRATOR_WAKE_TARGET" (
      text "host" "codex" (text "captured_at" "evening" (text "target_thread_id" "t1" Fields.end))))

binds : write_binding "codex" (some "t1") none "noon" ≡ ok binding
unfolding program
binds = refl

write_binding-captured_example :
    (b : Fields) × (target : Fields) × (require_binding "binding.json" (Read.content binding)
      ≡ ok b)
    × (wake_target_from_binding "evening" b ≡ ok target)
    × (validate_wake_target Instant.utc target ≡ ok tt)
    × (at "host" target ≡ Json.str "codex")
    × (at "target_thread_id" target ≡ or_null (filled (some "t1")))
write_binding-captured_example =
    write_binding-captured Instant.utc "codex" "noon" "evening" "evening" "binding.json" (some "t1")
      none binding refl binds

-- A waiting request gets a subscriber.
abbrev unsubscribed_ledger : Ledger
unsubscribed_ledger = ledger_in State.waiting

abbrev body : Fields
body = text "id" "s1" (Fields.field "wake_target" (Json.obj target) Fields.end)

abbrev subscriber : Subscriber
subscriber = record { id = "s1"; body = body }

abbrev subscribed_ledger : Ledger
subscribed_ledger = Save.event world "request" Notice.subscribed (record unsubscribed_ledger {
  requests =
      (
        "request",
        record {
          id = "request";
          project = "project";
          external = "job";
          plan = Json.null;
          subscribers = subscriber ∷ [];
          created_at = 1;
        },
      )
      ∷ [];
  history =
      record {
        request = "request";
        subscriber = "s1";
        generation = 1;
        body = subscriber;
        active = true;
      }
      ∷ [];
})

subscribes :
    subscribe_for Instant.utc world "request" "plan" (Json.obj body) false unsubscribed_ledger
    ≡ ok subscribed_ledger
unfolding program
subscribes = refl

none_before : AllAddressed Instant.utc unsubscribed_ledger.requests
unfolding program
none_before = (tt, tt)

Taken-AllAddressed_example : AllAddressed Instant.utc subscribed_ledger.requests
Taken-AllAddressed_example =
    Taken-AllAddressed Instant.utc world unsubscribed_ledger subscribed_ledger none_before
      (Taken.subscribed "request" "plan" (Json.obj body) false subscribes)
