-- ===== src/Events/Log/Reports.antt =====
-- What a publication returns says what was reported, when it made the event as when the event was there.
use orchestrator_engine.Prelude.{
  inl, inr, String, ◌≡◌, refl, sym, ap, subst, ◌∙◌, ◌==◌, eq_of_test, true, false, Bool, Bool-cases,
  arith, Option, none, some, List, [], ◌∷◌, contains, lookup,
}
use orchestrator_engine.Json
use orchestrator_engine.Json.{Json, Fields, eq-str}
use orchestrator_engine.Lease.Identity.{at}
use orchestrator_engine.Lease.Records.{assign_some, as_object}
use orchestrator_engine.Lease.Records.Lived.{at-assign_some}
use orchestrator_engine.Result.{ok, eq_of_ok}
use orchestrator_engine.Events.Ids.{validate_event_id}
use orchestrator_engine.Events.Log.{
  artifact, given_id, Log, Site, Terminal, Written, is_conflicting, retain_at,
  retain_event_and_signal, terminal_keys, terminal_event, terminal_signal, write_terminal_event,
}
use orchestrator_engine.Events.Log.Once.{keep-kept}
use orchestrator_engine.Events.Log.Steps.{TerminalPassed, write_terminal_event-passed}

agreeing :
    (keys : List String) (existing event : Fields) (key : String)
    → is_conflicting keys existing event ≡ false
    → contains keys key ≡ true
    → Json.eq (at key existing) (at key event) ≡ true
unfolding is_conflicting
agreeing [] existing event key none_differs among = cc
agreeing (k ∷ keys) existing event key none_differs among = elim (Bool-cases (k == key)) [
  | inl same ↦
      subst (λ j. Json.eq (at j existing) (at j event) ≡ true) (eq_of_test k key same)
        (ground (arith, none_differs))
  | inr other ↦
      agreeing keys existing event key (ground (arith, none_differs)) (ground (arith, other, among))
]

module _ (immutable : List String) (id : String) (b : Bool) (event signal : Fields) (l : Log) where
  retain-reports :
      (key said : String) (o : Option (Option Fields)) (w : Written)
      → contains immutable key ≡ true
      → at key event ≡ Json.str said
      → retain_at immutable id b event signal l o ≡ ok w
      → at key w.0 ≡ Json.str said
  unfolding retain_at
  retain-reports key said none w among there h = ap (λ r. at key r.0) (sym (eq_of_ok h)) ∙ there
  retain-reports key said (some none) w among there h = cc
  retain-reports key said (some (some existing)) w among there h =
      let (agrees, same, _, _, _) = keep-kept immutable id b event signal l existing w h in
      ap (at key) same
      ∙ eq-str (at key existing) said (
          subst (λ v. Json.eq (at key existing) v ≡ true) there
            (agreeing immutable existing event key agrees among))

-- What the event says of its subject and its artifacts.
pub record TellsOf (w : Site) (t : Terminal) (id : String) (result evidence : String × String)
    (event : Fields) : Type 0 where
  pub kind : at "kind" event ≡ Json.str "WORKER_TERMINAL"
  pub event_id : at "event_id" event ≡ Json.str id
  pub project_id : at "project_id" event ≡ Json.str w.project_id
  pub task_id : at "task_id" event ≡ Json.str t.task_id
  pub terminal_status : at "terminal_status" event ≡ Json.str t.terminal_status
  pub result_path : at "result_path" event ≡ Json.str result.0
  pub result_sha256 : at "result_sha256" event ≡ Json.str result.1
  pub evidence_path : at "evidence_path" event ≡ Json.str evidence.0
  pub evidence_sha256 : at "evidence_sha256" event ≡ Json.str evidence.1

-- The parts of the event, below the destination.
terminal_part :
    (w : Site) (t : Terminal) (id : String) (result evidence : String × String) (key : String)
    → ("wake_target" == key) ≡ false
    → at key (terminal_event w t id result evidence)
      ≡ at key (terminal_event w (record t { wake_target = none }) id result evidence)
unfolding as_object assign_some
terminal_part w t id result evidence key h = at-assign_some "wake_target" key _ _ h

module _ (w : Site) (t : Terminal) (l : Log) (r : Written) where
  pub passed-TellsOf : (p : TerminalPassed w t l r) → TellsOf w t p.id p.result p.evidence r.0
  unfolding retain_event_and_signal Json.get_or as_object assign_some
  passed-TellsOf p = record {
    kind = says "kind" _ refl (part "kind" refl);
    event_id = says "event_id" _ refl (part "event_id" refl);
    project_id = says "project_id" _ refl (part "project_id" refl);
    task_id = says "task_id" _ refl (part "task_id" refl);
    terminal_status = says "terminal_status" _ refl (part "terminal_status" refl);
    result_path = says "result_path" _ refl (part "result_path" refl);
    result_sha256 = says "result_sha256" _ refl (part "result_sha256" refl);
    evidence_path = says "evidence_path" _ refl (part "evidence_path" refl);
    evidence_sha256 = says "evidence_sha256" _ refl (part "evidence_sha256" refl);
  }
    where
      made : Fields
      made = terminal_event w t p.id p.result p.evidence

      part :
          (key : String)
          → ("wake_target" == key) ≡ false
          → at key made
            ≡ at key (terminal_event w (record t { wake_target = none }) p.id p.result p.evidence)
      part key e = terminal_part w t p.id p.result p.evidence key e

      says :
          (key said : String)
          → contains terminal_keys key ≡ true
          → at key made ≡ Json.str said
          → at key r.0 ≡ Json.str said
      says key said among e =
          retain-reports terminal_keys p.id t.emit_signal made
            (terminal_signal w t p.id p.result p.evidence) l key said (lookup p.id l.events) r among
            e p.published

-- A terminal event that is returned by `write_terminal_event`, made by it or retained from before,
-- has a valid identifier, and the project, task, status, and resolved paths and digests of the two
-- artifacts that the call reports.
pub write_terminal_event-TellsOf :
    (w : Site) (t : Terminal) (l : Log) (r : Written)
    → write_terminal_event w t l ≡ ok r
    → (id : String) × (result : String × String) × (evidence : String × String) × (validate_event_id
          (Json.str (given_id w.uuid4 t.event_id))
        ≡ ok id)
      × (artifact w t.result_path ≡ ok result)
      × (artifact w t.evidence_path ≡ ok evidence)
      × TellsOf w t id result evidence r.0
write_terminal_event-TellsOf w t l r h =
    let p = write_terminal_event-passed w t l r h in
    (p.id, p.result, p.evidence, p.of_id, p.of_result, p.of_evidence, passed-TellsOf w t l r p)
