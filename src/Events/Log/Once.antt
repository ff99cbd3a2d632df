-- ===== src/Events/Log/Once.antt =====
-- The event files as registers that are written once.
use orchestrator_engine.Prelude.{
  ◌⊎◌, eq_of_test, if◌then◌else◌, inl, inr, String, Bool, ◌==◌, test_self, true, false, ◌≡◌, refl,
  sym, ap, ◌∙◌, subst, Option, none, some, List, Bool-cases, lookup, put, lookup-put, Dict,
}
use orchestrator_engine.Json
use orchestrator_engine.Json.{Json, Fields}
use orchestrator_engine.Lease.Records.{assign}
use orchestrator_engine.Result.{
  ok, err, or_raise, or_raise-eq-ok, key_error, conflicting_event, >>=-eq-ok, eq_of_ok,
}
use orchestrator_engine.Events.Log.{
  Log, Written, emit, keep, is_conflicting, retain_at, retain_event_and_signal,
}

-- The files of `new` are those of `old` and `file` under `id`, which is the only file there ever.
abbrev pub IsWrittenOnce :
    (id : String) (file : Option Fields) (old new : Dict (Option Fields)) → Type 0
IsWrittenOnce id file old new =
    ((lookup id old ≡ none) ⊎ (lookup id old ≡ some file))
    × ((key : String) → lookup key new ≡ (if id == key then some file else lookup key old))

-- The file that stands under `id` then.
pub IsWrittenOnce-there :
    (id : String) (file : Option Fields) (old new : Dict (Option Fields))
    → IsWrittenOnce id file old new
    → lookup id new ≡ some file
IsWrittenOnce-there id file old new (before, after) = after id ∙ rw (test_self id) refl

-- A file that stood under `id` is the one that stands there then.
pub IsWrittenOnce-only :
    (id : String) (file f : Option Fields) (old new : Dict (Option Fields))
    → IsWrittenOnce id file old new
    → lookup id old ≡ some f
    → f ≡ file
IsWrittenOnce-only id file f old new (inl absent, after) h = cc
IsWrittenOnce-only id file f old new (inr same, after) h = cc

-- Every file stays.
pub IsWrittenOnce-kept :
    (id key : String) (file f : Option Fields) (old new : Dict (Option Fields))
    → IsWrittenOnce id file old new
    → lookup key old ≡ some f
    → lookup key new ≡ some f
IsWrittenOnce-kept id key file f old new once h = elim (Bool-cases (id == key)) [
  | inl same ↦
      once.1 key
      ∙ rw same (
          ap some (
            sym (
              IsWrittenOnce-only id file f old new once
                (ap (λ k. lookup k old) (eq_of_test id key same) ∙ h))))
  | inr differs ↦ once.1 key ∙ rw differs h
]

pub emit-events :
    (b : Bool) (id : String) (signal : Fields) (l : Log) → (emit b id signal l).events ≡ l.events
unfolding emit
emit-events true id signal l = refl
emit-events false id signal l = refl

-- A publication under `id`, from the file that was there.
module _ (immutable : List String) (id : String) (b : Bool) (event signal : Fields) (l : Log) where
  emitted :
      (file : Option Fields) (m : Log) (sent : Fields)
      → IsWrittenOnce id file l.events m.events
      → IsWrittenOnce id file l.events (emit b id sent m).events
  emitted file m sent h = subst (IsWrittenOnce id file l.events) (sym (emit-events b id sent m)) h

  fresh_write :
      lookup id l.events ≡ none
      → IsWrittenOnce id (some event) l.events (put id (some event) l.events)
  fresh_write absent = (inl absent, λ key. lookup-put id key (some event) l.events)

  retained :
      (existing : Fields)
      → lookup id l.events ≡ some (some existing)
      → IsWrittenOnce id (some existing) l.events l.events
  retained existing there = (inr there, standing)
    where
      standing :
          (key : String)
          → lookup key l.events ≡ (if id == key then some (some existing) else lookup key l.events)
      standing key = elim (Bool-cases (id == key)) [
        | inl same ↦ rw same (ap (λ k. lookup k l.events) (sym (eq_of_test id key same)) ∙ there)
        | inr differs ↦ rw differs refl
      ]

  -- What is returned for an event that is there.
  pub keep-kept :
      (existing : Fields) (w : Written)
      → keep immutable id b event signal existing l ≡ ok w
      → (is_conflicting immutable existing event ≡ false)
        × (w.0 ≡ existing)
        × (created_at : Json) × (Json.get "created_at" existing ≡ some created_at)
        × (w.1 ≡ emit b id (assign "created_at" created_at signal) l)
  unfolding keep
  keep-kept existing w h = elim (Bool-cases (is_conflicting immutable existing event)) [
    | inl conflict ↦ let h' = raised conflict h in cc
    | inr agrees ↦
        let (same, at_time, has, after) = rest agrees h in (agrees, same, at_time, has, after)
  ]
    where
      raised :
          is_conflicting immutable existing event ≡ true
          → keep immutable id b event signal existing l ≡ ok w
          → err conflicting_event ≡ ok w
      raised conflict g = rw conflict at g

      rest :
          is_conflicting immutable existing event ≡ false
          → keep immutable id b event signal existing l ≡ ok w
          → (w.0 ≡ existing)
            × (created_at : Json) × (Json.get "created_at" existing ≡ some created_at)
            × (w.1 ≡ emit b id (assign "created_at" created_at signal) l)
      rest agrees g =
          let (created_at, has, e) =
            >>=-eq-ok (or_raise key_error (Json.get "created_at" existing)) _ (rw agrees at g) in
          (
            ap (λ r. r.0) (sym (eq_of_ok e)),
            created_at,
            or_raise-eq-ok _ key_error has,
            ap (λ r. r.1) (sym (eq_of_ok e)),
          )

  retain_at-IsWrittenOnce :
      (o : Option (Option Fields)) (w : Written)
      → lookup id l.events ≡ o
      → retain_at immutable id b event signal l o ≡ ok w
      → IsWrittenOnce id (some w.0) l.events w.1.events
  unfolding retain_at keep
  retain_at-IsWrittenOnce none w absent h =
      subst (λ r. IsWrittenOnce id (some r.0) l.events r.1.events) (eq_of_ok h)
        (emitted (some event) _ signal (fresh_write absent))
  retain_at-IsWrittenOnce (some none) w there h = cc
  retain_at-IsWrittenOnce (some (some existing)) w there h =
      let (_, same, created_at, _, after) = keep-kept existing w h in
      subst2 existing w.0 _ w.1 (sym same) (sym after) (
        emitted (some existing) l (assign "created_at" created_at signal) (retained existing there))
    where
      subst2 :
          (a a' : Fields) (m m' : Log)
          → a ≡ a'
          → m ≡ m'
          → IsWrittenOnce id (some a) l.events m.events
          → IsWrittenOnce id (some a') l.events m'.events
      subst2 a a' m m' p q k =
          subst (λ x. IsWrittenOnce id (some x) l.events m'.events) p
            (subst (λ x. IsWrittenOnce id (some a) l.events x.events) q k)

  pub retain-IsWrittenOnce :
      (w : Written)
      → retain_event_and_signal immutable id b event signal l ≡ ok w
      → IsWrittenOnce id (some w.0) l.events w.1.events
  unfolding retain_event_and_signal
  retain-IsWrittenOnce w h = retain_at-IsWrittenOnce (lookup id l.events) w refl h
