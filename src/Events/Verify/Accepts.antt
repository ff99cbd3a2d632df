-- ===== src/Events/Verify/Accepts.antt =====
-- What verify_terminal_event accepts.
use orchestrator_engine.Prelude.{
  inl, inr, String, ◌≡◌, refl, ap, subst, ◌∙◌, ◌==◌, true, false, Bool-cases, test_self, eq_of_test,
  some, contains,
}
use orchestrator_engine.Json
use orchestrator_engine.Json.{Json, Fields, eq-str_self}
use orchestrator_engine.Lease.Identity.{at}
use orchestrator_engine.Lease.Stat.{chars}
use orchestrator_engine.Result.{ok, eq_of_ok, or_raise, or_raise-eq-ok, ◌>>=◌, >>=-eq-ok, no_file}
use orchestrator_engine.Events.Ids.{is_event_id, validate_event_id, is_supported_schema_version}
use orchestrator_engine.Events.Log.{
  Log, Site, Terminal, Written, artifact, terminal_statuses, write_terminal_event,
}
use orchestrator_engine.Events.Log.Once.{IsWrittenOnce-there}
use orchestrator_engine.Events.Log.Steps.{write_terminal_event-passed, Reached, Reached-kept}
use orchestrator_engine.Events.Log.Reports.{TellsOf, passed-TellsOf}
use orchestrator_engine.Events.Log.Agreement.{passed-IsWrittenOnce}
use orchestrator_engine.Events.Verify.{
  loaded, is_member, is_worker_kind, is_text, check_identity, check_digest, check_artifact,
  verify_event, verify_terminal_event,
}

validate_event_id-ok :
    (s id : String)
    → validate_event_id (Json.str s) ≡ ok id
    → (s ≡ id) × (is_event_id (chars s) ≡ true)
unfolding validate_event_id
validate_event_id-ok s id h = elim (Bool-cases (is_event_id (chars s))) [
  | inl valid ↦ (eq_of_ok (rw valid at h), valid)
  | inr bad ↦ let absurd_ok = rw bad at h in cc
]

-- A valid identifier is valid again, and is not empty.
valid_again :
    (s id : String)
    → validate_event_id (Json.str s) ≡ ok id
    → validate_event_id (Json.str id) ≡ ok id
valid_again s id h =
    let (same, _) = validate_event_id-ok s id h in
    subst (λ x. validate_event_id (Json.str x) ≡ ok id) same h

valid-is_text :
    (s id : String) → validate_event_id (Json.str s) ≡ ok id → is_text (Json.str id) ≡ true
unfolding is_text is_event_id
valid-is_text s id h =
    let (same, valid) = validate_event_id-ok s id h in
    elim (Bool-cases (id == "")) [
      | inl empty ↦
          let refuted =
            subst (λ x. is_event_id (chars x) ≡ true) (same ∙ eq_of_test id "" empty) valid in
          cc
      | inr full ↦ rw full refl
    ]

-- An artifact whose digest was taken, while the file is the same.
artifact-checked :
    (w : Site) (path : String) (a : String × String)
    → w.resolve (w.resolve path) ≡ w.resolve path
    → artifact w path ≡ ok a
    → check_artifact w (Json.str a.0) (Json.str a.1) ≡ ok tt
unfolding artifact check_artifact check_digest
artifact-checked w path a settled h =
    let (digest, taken, e) = >>=-eq-ok (or_raise no_file (w.digest_of (w.resolve path))) _ h in
    subst (λ x. check_artifact w (Json.str x.0) (Json.str x.1) ≡ ok tt) (eq_of_ok e)
      (rw (settled, or_raise-eq-ok _ no_file taken, test_self digest) refl)

TellsOf-verified :
    (w : Site) (t : Terminal) (id : String) (result evidence : String × String) (event : Fields)
    → TellsOf w t id result evidence event
    → is_supported_schema_version (at "schema_version" event) ≡ true
    → is_text (Json.str id) ≡ true
    → is_text (Json.str w.project_id) ≡ true
    → is_text (Json.str t.task_id) ≡ true
    → validate_event_id (Json.str id) ≡ ok id
    → contains terminal_statuses t.terminal_status ≡ true
    → check_artifact w (Json.str result.0) (Json.str result.1) ≡ ok tt
    → check_artifact w (Json.str evidence.0) (Json.str evidence.1) ≡ ok tt
    → verify_event w event ≡ ok event
unfolding verify_event is_member is_worker_kind check_identity Json.eq
TellsOf-verified w t id result evidence event p schema a b c d e f g =
    rw
      (
        schema, p.kind, p.event_id, p.project_id, p.task_id, a, b, c, d, p.terminal_status, e,
        p.result_path, p.result_sha256, f, p.evidence_path, p.evidence_sha256, g,
      )
      refl

-- A terminal event that a call returned verifies behind any later publications, as the event that
-- was returned, where the project has a name, resolved paths resolve to themselves, the digests
-- are what they were, and the event (which may have been there before the call) has a supported
-- schema version.
pub write_terminal_event-verifies :
    (w : Site) (t : Terminal) (l m : Log) (r : Written)
    → (w.project_id == "") ≡ false
    → ((path : String) → w.resolve (w.resolve path) ≡ w.resolve path)
    → write_terminal_event w t l ≡ ok r
    → is_supported_schema_version (at "schema_version" r.0) ≡ true
    → Reached r.1 m
    → (id : String) × (at "event_id" r.0 ≡ Json.str id) × (verify_terminal_event w id m ≡ ok r.0)
unfolding verify_terminal_event loaded is_text
write_terminal_event-verifies w t l m r project settled h schema between =
    let p = write_terminal_event-passed w t l r h in
    let says = passed-TellsOf w t l r p in
    let still =
      Reached-kept r.1 m p.id (some r.0) between (
        IsWrittenOnce-there p.id (some r.0) l.events r.1.events (passed-IsWrittenOnce w t l r p)) in
    (
      p.id,
      says.event_id,
      ap (λ file. loaded file >>= verify_event w) still
          ∙ TellsOf-verified w t p.id p.result p.evidence r.0 says schema
              (valid-is_text _ p.id p.of_id) (rw project refl) p.named (valid_again _ p.id p.of_id)
              p.in_status
              (artifact-checked w t.result_path p.result (settled t.result_path) p.of_result)
              (artifact-checked w t.evidence_path p.evidence (settled t.evidence_path)
                p.of_evidence),
    )
