-- ===== src/Binding/Bound.antt =====
-- From the binding of a host to the wake targets of its events.
use orchestrator_engine.Prelude.{
  inl, inr, String, ◌≡◌, refl, sym, ap, subst, ◌∙◌, ◌==◌, true, false, not, ◌&&◌, Bool-cases,
  Option, none, some, contains, test_self,
}
use orchestrator_engine.Json
use orchestrator_engine.Json.{Json, Fields, eq-str_self}
use orchestrator_engine.Lease.Identity.{at}
use orchestrator_engine.Lease.Process.{Read}
use orchestrator_engine.Lease.Records.{assign, assign_some}
use orchestrator_engine.Lease.Records.Lived.{at-assign, at-assign_some, at-assign_other}
use orchestrator_engine.Result.{
  Result, ok, ◌>>◌, guard, guard-eq-ok, eq_of_ok, >>=-eq-ok, bad_host, no_thread_id,
}
use orchestrator_engine.Events.Ids.{schema_version}
use orchestrator_engine.Events.Log.{Instant}
use orchestrator_engine.Events.Verify.{is_member, is_text}
use orchestrator_engine.Binding.{
  validate_binding, write_binding, load_binding, require_binding, wake_target_from_binding,
  validate_wake_target, binding_kind, filled, is_given, is_command, supported_hosts,
  hosts_requiring_thread_id,
}
use orchestrator_engine.Binding.Captured.{
  routed-other, routed-thread, IsSameBinding, validate_binding-same,
  wake_target_from_binding-validates,
}

abbrev pub or_null : Option Json → Json
or_null none = Json.null
or_null (some v) = v

at-assign_some_self :
    (k : String) (o : Option Json) (fs : Fields)
    → at k fs ≡ Json.null
    → at k (assign_some k o fs) ≡ or_null o
unfolding assign_some
at-assign_some_self k none fs absent = absent
at-assign_some_self k (some v) fs absent = at-assign k k v fs ∙ rw (test_self k) refl

filled-is_text : (o : Option String) → is_text (or_null (filled o)) ≡ is_given (filled o)
unfolding filled is_text is_given
filled-is_text none = refl
filled-is_text (some s) = elim (Bool-cases (s == "")) [
  | inl empty ↦ rw empty refl
  | inr full ↦ rw (full, full) refl
]

filled-is_command : (o : Option String) → is_command (or_null (filled o)) ≡ true
unfolding filled is_command
filled-is_command none = refl
filled-is_command (some s) = elim (Bool-cases (s == "")) [
  | inl empty ↦ rw empty refl
  | inr full ↦ rw full refl
]

module _ (host now : String) (thread command : Option String) where
  abbrev bare : Fields
  bare = Fields.field "schema_version" schema_version (
      Fields.field "kind" binding_kind
        (Fields.field "host" (Json.str host) (Fields.field "created_at" (Json.str now) Fields.end)))

  abbrev bound : Fields
  bound =
      assign_some "codex_command" (filled command)
        (assign_some "target_thread_id" (filled thread) bare)

  bound-other :
      (k : String)
      → ("codex_command" == k) ≡ false
      → ("target_thread_id" == k) ≡ false
      → at k bound ≡ at k bare
  bound-other k c t =
      at-assign_some "codex_command" k _ _ c ∙ at-assign_some "target_thread_id" k _ _ t

  bound-thread : at "target_thread_id" bound ≡ or_null (filled thread)
  unfolding Json.get_or
  bound-thread =
      at-assign_some "codex_command" "target_thread_id" _ _ refl
      ∙ at-assign_some_self "target_thread_id" (filled thread) bare refl

  bound-command : at "codex_command" bound ≡ or_null (filled command)
  unfolding Json.get_or
  bound-command =
      at-assign_some_self "codex_command" (filled command) _
        (at-assign_some "target_thread_id" "codex_command" _ bare refl)

  bound-validates :
      contains supported_hosts host ≡ true
      → not (contains hosts_requiring_thread_id host && not (is_given (filled thread))) ≡ true
      → validate_binding bound ≡ ok tt
  unfolding validate_binding Json.get_or is_member Json.eq
  bound-validates known threaded =
      rw
        (
          bound-other "schema_version" refl refl,
          bound-other "kind" refl refl,
          bound-other "host" refl refl,
          known,
          bound-thread,
          filled-is_text thread,
          threaded,
          bound-command,
          filled-is_command command,
        )
        refl

  write_binding-bound :
      (b : Fields)
      → write_binding host thread command now ≡ ok b
      → (b ≡ bound) × (validate_binding b ≡ ok tt)
  unfolding write_binding
  write_binding-bound b h =
      let (_, known, h) = >>=-eq-ok (guard (contains supported_hosts host) bad_host) _ h in
      let (_, threaded, h) =
        >>=-eq-ok
          (guard (not (contains hosts_requiring_thread_id host && not (is_given (filled thread))))
            no_thread_id)
          _ h in
      let same = eq_of_ok h in
      (
        sym same,
        subst (λ x. validate_binding x ≡ ok tt) same
            (bound-validates (guard-eq-ok _ bad_host known) (guard-eq-ok _ no_thread_id threaded)),
      )

-- The path that a loaded binding carries is not part of the binding.
with_path-IsSameBinding :
    (path : String) (b : Fields) → IsSameBinding (assign "binding_path" (Json.str path) b) b
with_path-IsSameBinding path b = record {
  schema_version = at-assign_other "binding_path" "schema_version" _ b refl;
  kind = at-assign_other "binding_path" "kind" _ b refl;
  host = at-assign_other "binding_path" "host" _ b refl;
  target_thread_id = at-assign_other "binding_path" "target_thread_id" _ b refl;
  codex_command = at-assign_other "binding_path" "codex_command" _ b refl;
}

captured-keeps :
    (now : String) (b target : Fields)
    → wake_target_from_binding now b ≡ ok target
    → (at "host" target ≡ at "host" b) × (at "target_thread_id" target ≡ at "target_thread_id" b)
unfolding wake_target_from_binding Json.get_or
captured-keeps now b target h =
    let (_, _, e) = >>=-eq-ok (validate_binding b) _ h in
    (
      ap (at "host") (sym (eq_of_ok e)) ∙ routed-other b _ "host" refl refl,
      ap (at "target_thread_id") (sym (eq_of_ok e)) ∙ routed-thread b _ refl,
    )

passed-ok : (check : Result (Unit {0})) (fs : Fields) → check ≡ ok tt → (check >> ok fs) ≡ ok fs
passed-ok check fs h = rw h refl

capturable :
    (now : String) (b : Fields)
    → validate_binding b ≡ ok tt
    → (target : Fields) × (wake_target_from_binding now b ≡ ok target)
unfolding wake_target_from_binding
capturable now b h = (_, passed-ok (validate_binding b) _ h)

-- A binding that was written is loaded again, from its file, and a wake target that is captured
-- from it at a time that can be read exists, is valid, and is for the host and the thread that were
-- bound.
pub write_binding-captured :
    (instant : String → Instant) (host now later time path : String)
    (thread command : Option String) (b : Fields)
    → instant later ≡ Instant.utc time
    → write_binding host thread command now ≡ ok b
    → (binding : Fields) × (target : Fields) × (require_binding path (Read.content b) ≡ ok binding)
      × (wake_target_from_binding later binding ≡ ok target)
      × (validate_wake_target instant target ≡ ok tt)
      × (at "host" target ≡ Json.str host)
      × (at "target_thread_id" target ≡ or_null (filled thread))
unfolding require_binding load_binding wake_target_from_binding Json.get_or
write_binding-captured instant host now later time path thread command b timed h =
    let (same, valid) = write_binding-bound host now thread command b h in
    let sames = with_path-IsSameBinding path b in
    let valid' = validate_binding-same _ b sames ∙ valid in
    let (target, captured) = capturable later (assign "binding_path" (Json.str path) b) valid' in
    let (kept_host, kept_thread) =
      captured-keeps later (assign "binding_path" (Json.str path) b) _ captured in
    (
      _,
      target,
      rw valid refl,
      captured,
      wake_target_from_binding-validates instant later time _ _ timed captured,
      kept_host
          ∙ sames.host
          ∙ ap (at "host") same
          ∙ bound-other host now thread command "host" refl refl,
      kept_thread
          ∙ sames.target_thread_id
          ∙ ap (at "target_thread_id") same
          ∙ bound-thread host now thread command,
    )
