-- ===== src/Binding/Captured.antt =====
-- A binding that is accepted, and the wake targets that are captured from it.
use orchestrator_engine.Prelude.{
  String, ◌≡◌, refl, sym, ap, subst, ◌∙◌, ◌==◌, true, false, Option, none, some, arith, test_self,
}
use orchestrator_engine.Json
use orchestrator_engine.Json.{Json, Fields, ℤ, eq-str, eq-str_self}
use orchestrator_engine.Lease.Identity.{at}
use orchestrator_engine.Lease.Records.{assign_some}
use orchestrator_engine.Lease.Records.Lived.{at-assign, at-assign_some}
use orchestrator_engine.Result.{
  ok, guard, guard-eq-ok, bad_binding_schema, bad_binding_kind, eq_of_ok, >>=-eq-ok,
}
use orchestrator_engine.Events.Ids.{is_supported_schema_version, schema_version}
use orchestrator_engine.Events.Log.{Instant}
use orchestrator_engine.Binding.{
  routed, validate_binding, wake_target_from_binding, binding_of, validate_wake_target,
  check_instant, check_captured_at, binding_kind, wake_target_kind,
}

at-get :
    (k : String) (fs : Fields) → at k fs ≡ elim (Json.get k fs) [ none ↦ Json.null | some v ↦ v ]
unfolding Json.get Json.get_or
at-get k Fields.end = refl
at-get k (Fields.field j v fs) = ground (arith, at-get k fs)

-- A part that is passed on.
at-passed :
    (k : String) (from onto : Fields)
    → at k onto ≡ Json.null
    → at k (assign_some k (Json.get k from) onto) ≡ at k from
unfolding assign_some
at-passed k from onto absent = passed (Json.get k from) ∙ sym (at-get k from)
  where
    passed :
        (o : Option Json) → at k (assign_some k o onto) ≡ elim o [ none ↦ Json.null | some v ↦ v ]
    passed none = absent
    passed (some v) = at-assign k k v onto ∙ rw (test_self k) refl

module _ (from onto : Fields) where
  pub routed-other :
      (k : String)
      → ("codex_command" == k) ≡ false
      → ("target_thread_id" == k) ≡ false
      → at k (routed from onto) ≡ at k onto
  routed-other k c t =
      at-assign_some "codex_command" k _ _ c ∙ at-assign_some "target_thread_id" k _ _ t

  pub routed-thread :
      at "target_thread_id" onto ≡ Json.null
      → at "target_thread_id" (routed from onto) ≡ at "target_thread_id" from
  routed-thread absent =
      at-assign_some "codex_command" "target_thread_id" _ _ refl
      ∙ at-passed "target_thread_id" from onto absent

  routed-command :
      at "codex_command" onto ≡ Json.null
      → at "codex_command" (routed from onto) ≡ at "codex_command" from
  routed-command absent =
      at-passed "codex_command" from _
        (at-assign_some "target_thread_id" "codex_command" _ onto refl ∙ absent)

-- What validate_binding reads.
pub record IsSameBinding (b c : Fields) : Type 0 where
  pub schema_version : at "schema_version" b ≡ at "schema_version" c
  pub kind : at "kind" b ≡ at "kind" c
  pub host : at "host" b ≡ at "host" c
  pub target_thread_id : at "target_thread_id" b ≡ at "target_thread_id" c
  pub codex_command : at "codex_command" b ≡ at "codex_command" c

pub validate_binding-same :
    (b c : Fields) → IsSameBinding b c → validate_binding b ≡ validate_binding c
unfolding validate_binding
validate_binding-same b c s =
    rw (s.schema_version, s.kind, s.host, s.target_thread_id, s.codex_command) refl

supported-one : (v : Json) → is_supported_schema_version v ≡ true → v ≡ schema_version
supported-one (Json.num (ℤ.pos n)) h = ap (λ k. Json.num (ℤ.pos k)) (ground (arith, h))
supported-one _ h = cc

validated :
    (b : Fields)
    → validate_binding b ≡ ok tt
    → (at "schema_version" b ≡ schema_version) × (at "kind" b ≡ binding_kind)
unfolding validate_binding
validated b h =
    let (_, schema, h) =
      >>=-eq-ok (guard (is_supported_schema_version (at "schema_version" b)) bad_binding_schema) _
        h in
    let (_, kind, _) =
      >>=-eq-ok (guard (Json.eq (at "kind" b) binding_kind) bad_binding_kind) _ h in
    (
      supported-one _ (guard-eq-ok _ bad_binding_schema schema),
      eq-str _ _ (guard-eq-ok _ bad_binding_kind kind),
    )

validate_wake_target-ok :
    (instant : String → Instant) (target : Fields)
    → is_supported_schema_version (at "schema_version" target) ≡ true
    → Json.eq (at "kind" target) wake_target_kind ≡ true
    → check_captured_at instant (at "captured_at" target) ≡ ok tt
    → validate_binding (binding_of target) ≡ ok tt
    → validate_wake_target instant target ≡ ok tt
unfolding validate_wake_target
validate_wake_target-ok instant target a b c d = rw (a, b, c) d

module _ (now : String) (b : Fields) where
  abbrev blank : Fields
  blank = Fields.field "schema_version" schema_version (
      Fields.field "kind" wake_target_kind
        (Fields.field "host" (at "host" b) (Fields.field "captured_at" (Json.str now) Fields.end)))

  captured-IsSameBinding :
      (at "schema_version" b ≡ schema_version)
      → (at "kind" b ≡ binding_kind)
      → IsSameBinding (binding_of (routed b blank)) b
  unfolding Json.get_or
  captured-IsSameBinding schema kind = record {
    schema_version =
        routed-other target _ "schema_version" refl refl
        ∙ routed-other b blank "schema_version" refl refl
        ∙ sym schema;
    kind = routed-other target _ "kind" refl refl ∙ sym kind;
    host = routed-other target _ "host" refl refl ∙ routed-other b blank "host" refl refl;
    target_thread_id = routed-thread target _ refl ∙ routed-thread b blank refl;
    codex_command = routed-command target _ refl ∙ routed-command b blank refl;
  }
    where
      target : Fields
      target = routed b blank

  captured-validates :
      (instant : String → Instant) (time : String)
      → instant now ≡ Instant.utc time
      → validate_binding b ≡ ok tt
      → validate_wake_target instant (routed b blank) ≡ ok tt
  unfolding check_captured_at check_instant Json.get_or Json.eq
  captured-validates instant time timed h =
      let (schema, kind) = validated b h in
      validate_wake_target-ok instant (routed b blank)
        (ap is_supported_schema_version (routed-other b blank "schema_version" refl refl))
        (ap (λ v. Json.eq v wake_target_kind) (routed-other b blank "kind" refl refl))
        (ap (check_captured_at instant) (routed-other b blank "captured_at" refl refl)
          ∙ ap check_instant timed)
        (validate_binding-same _ b (captured-IsSameBinding schema kind) ∙ h)

-- The wake target that is captured from a binding at a time that can be read is a valid one.
pub wake_target_from_binding-validates :
    (instant : String → Instant) (now time : String) (b target : Fields)
    → instant now ≡ Instant.utc time
    → wake_target_from_binding now b ≡ ok target
    → validate_wake_target instant target ≡ ok tt
unfolding wake_target_from_binding
wake_target_from_binding-validates instant now time b target timed h =
    let (_, valid, e) = >>=-eq-ok (validate_binding b) _ h in
    subst (λ t. validate_wake_target instant t ≡ ok tt) (eq_of_ok e)
      (captured-validates now b instant time timed valid)
