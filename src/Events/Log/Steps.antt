-- ===== src/Events/Log/Steps.antt =====
-- Publications as steps, and what they leave as it is.
use orchestrator_engine.Prelude.{String, ◌==◌, true, ◌≡◌, contains, not, Option, some, lookup}
use orchestrator_engine.Json.{Json, Fields}
use orchestrator_engine.Result.{
  guard, no_task_id, no_operation_id, no_source_kind, bad_terminal_status, ok, >>=-eq-ok,
  guard-eq-ok,
}
use orchestrator_engine.Events.Ids.{validate_event_id}
use orchestrator_engine.Events.Log.{
  artifact, given_id, terminal_statuses, terminal_keys, terminal_event, terminal_signal,
  followup_keys, followup_event, followup_signal, followup_terminal_statuses, earliest, Log,
  Written, retain_event_and_signal, Site, Terminal, write_terminal_event, Followup,
  write_followup_event,
}
use orchestrator_engine.Events.Log.Once.{IsWrittenOnce, IsWrittenOnce-kept, retain-IsWrittenOnce}

-- What has passed when a write returns.
pub record TerminalPassed (w : Site) (t : Terminal) (l : Log) (r : Written) : Type 0 where
  pub result : String × String
  pub evidence : String × String
  pub id : String
  pub named : not (t.task_id == "") ≡ true
  pub in_status : contains terminal_statuses t.terminal_status ≡ true
  pub of_result : artifact w t.result_path ≡ ok result
  pub of_evidence : artifact w t.evidence_path ≡ ok evidence
  pub of_id : validate_event_id (Json.str (given_id w.uuid4 t.event_id)) ≡ ok id
  pub published :
      retain_event_and_signal terminal_keys id t.emit_signal
        (terminal_event w t id result evidence)
        (terminal_signal w t id result evidence)
        l
      ≡ ok r

pub write_terminal_event-passed :
    (w : Site) (t : Terminal) (l : Log) (r : Written)
    → write_terminal_event w t l ≡ ok r
    → TerminalPassed w t l r
unfolding write_terminal_event
write_terminal_event-passed w t l r h =
    let (_, g, h) = >>=-eq-ok (guard (not (t.task_id == "")) no_task_id) _ h in
    let (_, s, h) =
      >>=-eq-ok (guard (contains terminal_statuses t.terminal_status) bad_terminal_status) _ h in
    let (result, a, h) = >>=-eq-ok (artifact w t.result_path) _ h in
    let (evidence, b, h) = >>=-eq-ok (artifact w t.evidence_path) _ h in
    let (id, c, h) = >>=-eq-ok (validate_event_id (Json.str (given_id w.uuid4 t.event_id))) _ h in
    record {
      result = result;
      evidence = evidence;
      id = id;
      named = guard-eq-ok _ no_task_id g;
      in_status = guard-eq-ok _ bad_terminal_status s;
      of_result = a;
      of_evidence = b;
      of_id = c;
      published = h;
    }

terminal-IsWrittenOnce :
    (w : Site) (t : Terminal) (l : Log) (r : Written)
    → write_terminal_event w t l ≡ ok r
    → (id : String) × IsWrittenOnce id (some r.0) l.events r.1.events
terminal-IsWrittenOnce w t l r h =
    let p = write_terminal_event-passed w t l r h in
    (
      p.id,
      retain-IsWrittenOnce terminal_keys p.id t.emit_signal
          (terminal_event w t p.id p.result p.evidence)
          (terminal_signal w t p.id p.result p.evidence) l r p.published,
    )

followup-IsWrittenOnce :
    (w : Site) (f : Followup) (l : Log) (r : Written)
    → write_followup_event w f l ≡ ok r
    → (id : String) × IsWrittenOnce id (some r.0) l.events r.1.events
unfolding write_followup_event
followup-IsWrittenOnce w f l r h =
    let (_, _, h) = >>=-eq-ok (guard (not (f.operation_id == "")) no_operation_id) _ h in
    let (_, _, h) = >>=-eq-ok (guard (not (f.source_kind == "")) no_source_kind) _ h in
    let (_, _, h) =
      >>=-eq-ok (guard (contains followup_terminal_statuses f.terminal_status) bad_terminal_status)
        _ h in
    let (result, _, h) = >>=-eq-ok (artifact w f.result_path) _ h in
    let (evidence, _, h) = >>=-eq-ok (artifact w f.evidence_path) _ h in
    let (id, _, h) =
      >>=-eq-ok
        (validate_event_id
          (Json.str (given_id (w.followup_event_id f.source_kind f.operation_id) f.event_id)))
        _ h in
    let (not_before, _, h) = >>=-eq-ok (earliest w f.not_before) _ h in
    (
      id,
      retain-IsWrittenOnce followup_keys id f.emit_signal
          (followup_event w f id result evidence not_before)
          (followup_signal w f id result evidence not_before) l r h,
    )

-- The publications of terminal and of follow-up events, each at its own time and place.
pub data Step : Log → Log → Type 0 where
  terminal :
      {l : Log} {r : Written} (w : Site) (t : Terminal)
      → write_terminal_event w t l ≡ ok r
      → Step l r.1
  followup :
      {l : Log} {r : Written} (w : Site) (f : Followup)
      → write_followup_event w f l ≡ ok r
      → Step l r.1

pub data Reached (l : Log) : Log → Type 0 where
  here : Reached l l
  then : {m n : Log} → Reached l m → Step m n → Reached l n

-- Each publication is a write to a register that can be written once: some event stands under one
-- identifier behind it, a file that stood there before is that event, and every other identifier
-- has the file it had.
pub Step-IsWrittenOnce :
    (l m : Log)
    → Step l m
    → (id : String) × (event : Fields) × IsWrittenOnce id (some event) l.events m.events
Step-IsWrittenOnce l _ (Step.terminal {r} w t h) =
    let (id, once) = terminal-IsWrittenOnce w t l r h in (id, r.0, once)
Step-IsWrittenOnce l _ (Step.followup {r} w f h) =
    let (id, once) = followup-IsWrittenOnce w f l r h in (id, r.0, once)

-- An event file that is there is the same ever after, whatever terminal and follow-up events are
-- published, whoever publishes them and when.
pub Reached-kept :
    (l m : Log) (id : String) (file : Option Fields)
    → Reached l m
    → lookup id l.events ≡ some file
    → lookup id m.events ≡ some file
Reached-kept l _ id file Reached.here h = h
Reached-kept l m id file (Reached.then {m = k} r s) h =
    let (at_id, event, once) = Step-IsWrittenOnce k m s in
    IsWrittenOnce-kept at_id id (some event) file k.events m.events once
      (Reached-kept l k id file r h)
