-- ===== src/Events/Log/Retry.antt =====
-- A report that is repeated, at a later time, is accepted and changes no event.
use orchestrator_engine.Prelude.{
  String, test_self, ◌≡◌, refl, sym, ap, subst, ◌∙◌, true, false, Bool, Option, none, some, lookup,
  List,
}
use orchestrator_engine.Json
use orchestrator_engine.Json.{Json, Fields, eq-str_self}
use orchestrator_engine.Lease.Records.{assign_some, assign, as_object}
use orchestrator_engine.Result.{ok, eq_of_ok}
use orchestrator_engine.Events.Ids.{validate_event_id}
use orchestrator_engine.Events.Log.{
  Log, Site, Terminal, Written, artifact, given_id, emit, keep, is_conflicting, retain_at,
  retain_event_and_signal, terminal_keys, terminal_event, terminal_signal, write_terminal_event,
}
use orchestrator_engine.Events.Log.Once.{keep-kept, emit-events}
use orchestrator_engine.Events.Log.Once.{IsWrittenOnce-there}
use orchestrator_engine.Events.Log.Steps.{
  TerminalPassed, write_terminal_event-passed, Reached, Reached-kept,
}
use orchestrator_engine.Events.Log.Agreement.{passed-IsWrittenOnce}

-- The destination that an event has.
abbrev pub destination : Option Fields → Json
destination none = Json.null
destination (some fs) = Json.obj fs

-- A later call, with the project, the paths and the digests of files as they were: it has another
-- time, and another identifier would be made.
abbrev pub later_site : Site → (now uuid4 : String) → Site
later_site w now uuid4 = record w { now = now; uuid4 = uuid4 }

module _ (w : Site) (t : Terminal) (later made_id : String) where
  -- The time of the event is not among the parts that are compared.
  same_parts :
      (id : String) (result evidence : String × String) (wake : Option Fields) (existing : Fields)
      → is_conflicting terminal_keys existing (
          terminal_event
            (later_site w later made_id)
            (record t { wake_target = wake })
            id
            result
            evidence)
        ≡ is_conflicting terminal_keys existing
            (terminal_event w (record t { wake_target = wake }) id result evidence)
  unfolding is_conflicting as_object assign_some assign Json.get_or
  same_parts id result evidence none existing = refl
  same_parts id result evidence (some fs) existing = refl

  own_parts :
      (id : String) (result evidence : String × String) (wake : Option Fields)
      → Json.eq (destination wake) (destination wake) ≡ true
      → let event = terminal_event w (record t { wake_target = wake }) id result evidence in
        is_conflicting terminal_keys event event ≡ false
  unfolding is_conflicting as_object assign_some assign Json.get_or Json.eq
  own_parts id result evidence none h =
      rw
        (
          test_self id,
          test_self w.project_id,
          test_self t.task_id,
          test_self t.terminal_status,
          test_self result.0,
          test_self result.1,
          test_self evidence.0,
          test_self evidence.1,
        )
        refl
  own_parts id result evidence (some fs) h =
      rw
        (
          test_self id,
          test_self w.project_id,
          test_self t.task_id,
          test_self t.terminal_status,
          test_self result.0,
          test_self result.1,
          test_self evidence.0,
          test_self evidence.1,
          h,
        )
        refl

  stamped :
      (id : String) (result evidence : String × String) (wake : Option Fields)
      → Json.get "created_at"
          (terminal_event w (record t { wake_target = wake }) id result evidence)
        ≡ some (Json.str w.now)
  unfolding Json.get as_object assign_some assign
  stamped id result evidence none = refl
  stamped id result evidence (some fs) = refl

-- What a retained event has, whatever made it.
module _ (w : Site) (t : Terminal) (l : Log) (r : Written)
    (itself : Json.eq (destination t.wake_target) (destination t.wake_target) ≡ true) where
  abbrev made : (id : String) (result evidence : String × String) → Fields
  made id result evidence = terminal_event w t id result evidence

  returned :
      (p : TerminalPassed w t l r) (o : Option (Option Fields))
      → retain_at terminal_keys p.id t.emit_signal
          (made p.id p.result p.evidence)
          (terminal_signal w t p.id p.result p.evidence)
          l
          o
        ≡ ok r
      → (is_conflicting terminal_keys r.0 (made p.id p.result p.evidence) ≡ false)
        × (created_at : Json) × (Json.get "created_at" r.0 ≡ some created_at)
  unfolding retain_at
  returned p none h =
      subst
        (λ event.
          (is_conflicting terminal_keys event (made p.id p.result p.evidence) ≡ false)
          × (created_at : Json) × (Json.get "created_at" event ≡ some created_at))
        (ap (λ x. x.0) (eq_of_ok h))
        (
          own_parts w t w.now w.uuid4 p.id p.result p.evidence t.wake_target itself,
          Json.str w.now,
          stamped w t w.now w.uuid4 p.id p.result p.evidence t.wake_target,
        )
  returned p (some none) h = cc
  returned p (some (some existing)) h =
      let (agrees, same, created_at, has, _) =
        keep-kept terminal_keys p.id t.emit_signal _ _ l existing r h in
      (
        ap (λ x. is_conflicting terminal_keys x (made p.id p.result p.evidence)) same ∙ agrees,
        created_at,
        ap (Json.get "created_at") same ∙ has,
      )

later_artifact :
    (w : Site) (later made_id path : String)
    → artifact (later_site w later made_id) path ≡ artifact w path
unfolding artifact
later_artifact w later made_id path = refl

-- The checks of a call that has passed before are passed at a later time.
repeated :
    (w : Site) (t : Terminal) (l m : Log) (r : Written) (later made_id : String)
    (p : TerminalPassed w t l r)
    → validate_event_id (Json.str (given_id (later_site w later made_id).uuid4 t.event_id))
      ≡ ok p.id
    → write_terminal_event (later_site w later made_id) t m
      ≡ retain_at terminal_keys p.id t.emit_signal
          (terminal_event (later_site w later made_id) t p.id p.result p.evidence)
          (terminal_signal (later_site w later made_id) t p.id p.result p.evidence)
          m
          (lookup p.id m.events)
unfolding write_terminal_event retain_event_and_signal
repeated w t l m r later made_id p id =
    rw
      (
        p.named,
        p.in_status,
        artifacts t.result_path p.result p.of_result,
        artifacts t.evidence_path p.evidence p.of_evidence,
        id,
      )
      refl
  where
    artifacts :
        (path : String) (a : String × String)
        → artifact w path ≡ ok a
        → artifact (later_site w later made_id) path ≡ ok a
    artifacts path a h = later_artifact w later made_id path ∙ h

retain_at-lookup :
    (keys : List String) (id : String) (b : Bool) (event signal : Fields) (l : Log)
    → retain_at keys id b event signal l (lookup id l.events)
      ≡ retain_event_and_signal keys id b event signal l
unfolding retain_event_and_signal
retain_at-lookup keys id b event signal l = refl

retain_at-accepts :
    (id : String) (b : Bool) (event signal existing : Fields) (created_at : Json) (m : Log)
    → is_conflicting terminal_keys existing event ≡ false
    → Json.get "created_at" existing ≡ some created_at
    → retain_at terminal_keys id b event signal m (some (some existing))
      ≡ ok (existing, emit b id (assign "created_at" created_at signal) m)
unfolding keep retain_at
retain_at-accepts id b event signal existing created_at m agrees has = rw (agrees, has) refl

-- A report of a terminal event that returned, with an identifier that its caller gives and a
-- destination that equals itself, returns when it is repeated at a later time, with any
-- publications between, while the project, the paths and the digests of its files are as they were:
-- it returns the same event, and no event file changes.
pub write_terminal_event-retry :
    (w : Site) (t : Terminal) (l m : Log) (r : Written) (id later made_id : String)
    → t.event_id ≡ some id
    → Json.eq (destination t.wake_target) (destination t.wake_target) ≡ true
    → write_terminal_event w t l ≡ ok r
    → Reached r.1 m
    → (n : Log) × (write_terminal_event (later_site w later made_id) t m ≡ ok (r.0, n))
      × (n.events ≡ m.events)
write_terminal_event-retry w t l m r id later made_id given itself h between =
    let p = write_terminal_event-passed w t l r h in
    let still =
      Reached-kept r.1 m p.id (some r.0) between (
        IsWrittenOnce-there p.id (some r.0) l.events r.1.events (passed-IsWrittenOnce w t l r p)) in
    let (agrees, created_at, has) =
      returned w t l r itself p (lookup p.id l.events) (at_published p) in
    (
      _,
      repeated w t l m r later made_id p (same_id p)
          ∙ ap (retain_at terminal_keys p.id t.emit_signal _ _ m) still
          ∙ retain_at-accepts p.id t.emit_signal _ _ r.0 created_at m
              (same_parts w t later made_id p.id p.result p.evidence t.wake_target r.0 ∙ agrees)
              has,
      emit-events t.emit_signal p.id _ m,
    )
  where
    same_id :
        (p : TerminalPassed w t l r)
        → validate_event_id (Json.str (given_id made_id t.event_id)) ≡ ok p.id
    same_id p =
        ap (λ i. validate_event_id (Json.str (given_id made_id i))) given
        ∙ ap (λ i. validate_event_id (Json.str (given_id w.uuid4 i))) (sym given)
        ∙ p.of_id

    at_published :
        (p : TerminalPassed w t l r)
        → retain_at terminal_keys p.id t.emit_signal
            (terminal_event w t p.id p.result p.evidence)
            (terminal_signal w t p.id p.result p.evidence)
            l
            (lookup p.id l.events)
          ≡ ok r
    at_published p = retain_at-lookup terminal_keys p.id t.emit_signal _ _ l ∙ p.published
