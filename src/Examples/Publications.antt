-- ===== src/Examples/Publications.antt =====
-- A worker that finishes, and whose report is repeated.
use orchestrator_engine.Prelude.{String, ◌≡◌, refl, true, none, some, [], ◌∷◌, lookup, put}
use orchestrator_engine.Json
use orchestrator_engine.Json.{Json, Fields}
use orchestrator_engine.Lease.Identity.{at}
use orchestrator_engine.Lease.Records
use orchestrator_engine.Lease.Records.{assign}
use orchestrator_engine.Result.{ok}
use orchestrator_engine.Events.Ids
use orchestrator_engine.Events.Log
use orchestrator_engine.Events.Log.{
  Instant, Site, Log, Terminal, Written, terminal_event, terminal_signal, write_terminal_event,
}
use orchestrator_engine.Events.Log.Once.{IsWrittenOnce}
use orchestrator_engine.Events.Log.Steps.{Step, Reached, Step-IsWrittenOnce, Reached-kept}
use orchestrator_engine.Events.Log.Agreement.{write_terminal_event-same}
use orchestrator_engine.Events.Log.Retry.{later_site, write_terminal_event-retry}
use orchestrator_engine.Events.Verify.{verify_terminal_event}
use orchestrator_engine.Events.Verify.Accepts.{write_terminal_event-verifies}

program : Unit {0}
unfolding Json.get Json.get_or Json.int_eq Json.eq lookup put Records.assign Records.assign_some
    Records.as_object Ids.is_alphanumeric Ids.is_id_mark Ids.is_event_id Ids.validate_event_id
    Log.artifact Log.is_conflicting Log.emit Log.keep Log.retain_at Log.retain_event_and_signal
    Log.write_terminal_event
program = tt

abbrev site : Site
site = record {
  project_id = "engine";
  resolve = λ path. path;
  digest_of = λ path. some path;
  event_path = λ id. id;
  signal_path = λ id. id;
  now = "noon";
  uuid4 = "u1";
  followup_event_id = λ source_kind operation_id. operation_id;
  instant = λ time. Instant.utc time;
}

abbrev finished : Terminal
finished = record {
  task_id = "build";
  terminal_status = "completed";
  result_path = "result.json";
  evidence_path = "log.txt";
  event_id = some "e1";
  wake_target = none;
  emit_signal = true;
}

abbrev nothing_yet : Log
nothing_yet = record { events = []; signals = [] }

abbrev result : String × String
result = ("result.json", "result.json")

abbrev evidence : String × String
evidence = ("log.txt", "log.txt")

abbrev made_event : Fields
made_event = terminal_event site finished "e1" result evidence

abbrev first_log : Log
first_log = record {
  events = ("e1", some made_event) ∷ [];
  signals = ("e1", terminal_signal site finished "e1" result evidence) ∷ [];
}

writes : write_terminal_event site finished nothing_yet ≡ ok (made_event, first_log)
unfolding program
writes = refl

abbrev evening : Site
evening = later_site site "evening" "u2"

abbrev second_log : Log
second_log = record {
  events = ("e1", some made_event) ∷ [];
  signals =
      (
        "e1",
        assign "created_at" (Json.str "noon")
            (terminal_signal evening finished "e1" result evidence),
      )
      ∷ [];
}

writes_again : write_terminal_event evening finished first_log ≡ ok (made_event, second_log)
unfolding program
writes_again = refl

Step-IsWrittenOnce_example :
    (id : String) × (e : Fields) × IsWrittenOnce id (some e) nothing_yet.events first_log.events
Step-IsWrittenOnce_example =
    Step-IsWrittenOnce nothing_yet first_log (Step.terminal site finished writes)

there : lookup "e1" first_log.events ≡ some (some made_event)
unfolding program
there = refl

Reached-kept_example : lookup "e1" second_log.events ≡ some (some made_event)
Reached-kept_example =
    Reached-kept first_log second_log "e1" (some made_event)
      (Reached.then Reached.here (Step.terminal evening finished writes_again)) there

write_terminal_event-same_example :
    (made_event ≡ made_event)
    × (finished.task_id ≡ finished.task_id)
    × (finished.terminal_status ≡ finished.terminal_status)
write_terminal_event-same_example =
    write_terminal_event-same site evening finished finished nothing_yet first_log
      (made_event, first_log) (made_event, second_log) refl writes Reached.here writes_again

null_self : Json.eq Json.null Json.null ≡ true
unfolding program
null_self = refl

write_terminal_event-retry_example :
    (n : Log) × (write_terminal_event evening finished first_log ≡ ok (made_event, n))
    × (n.events ≡ first_log.events)
write_terminal_event-retry_example =
    write_terminal_event-retry site finished nothing_yet first_log (made_event, first_log) "e1"
      "evening" "u2" refl null_self writes Reached.here

supported : Ids.is_supported_schema_version (at "schema_version" made_event) ≡ true
unfolding program
supported = refl

write_terminal_event-verifies_example :
    (id : String) × (at "event_id" made_event ≡ Json.str id)
    × (verify_terminal_event site id first_log ≡ ok made_event)
write_terminal_event-verifies_example =
    write_terminal_event-verifies site finished nothing_yet first_log (made_event, first_log) refl
      (λ path. refl) writes supported Reached.here
