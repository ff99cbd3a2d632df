-- ===== src/Ledger/Forward/Later.antt =====
-- Any later transactions, and the operations that they cannot make possible again.
use orchestrator_engine.Prelude.{
  ℕ, suc, ◌≤◌, String, ◌≡◌, refl, sym, ap, subst, inl, inr, Bool, true, false, not, ◌&&◌, Option,
  some, List, [], ◌∷◌, ◌==◌, find, filter, arith, Bool-cases, Option-cases, IsDict-lookup, eqb, all,
  contains, keys,
}
use orchestrator_engine.Json.{Json, Fields}
use orchestrator_engine.Result.{ok, >>=-eq-ok, eq_of_ok, ok-injective}
use orchestrator_engine.Resources.Registry.{identifier}
use orchestrator_engine.Resources.Normalize.{normalize_registry}
use orchestrator_engine.Ledger.State.{
  State, is_terminal, is_owning, Stage, World, Ledger, Subscriber, values, active_stages,
}
use orchestrator_engine.Ledger.Save.{write, now, tick, event, find_stage, save, find_request}
use orchestrator_engine.Ledger.Outcomes.{latest, of_subscriber, in_state, stages_of}
use orchestrator_engine.Ledger.Operations.{
  attach, annotate, admit, cancel, cancel_stages, settle, finish, recover, abort_unadmitted,
  abort_outcome, same_token, runner_fields, field_names, or_failed, is_quiescent, may_abort,
  not_started,
}
use orchestrator_engine.Ledger.Plans.{Definition, names_of, read_plan}
use orchestrator_engine.Ledger.Requests.{
  configure, check_stages, check_definitions, new_stage, drawn, add_stages, add_request,
  known_request, submit_new, submit,
}
use orchestrator_engine.Ledger.Subscriptions.{subscribe, may_follow, with_history, pinned}
use orchestrator_engine.Ledger.Steps.{Step}
use orchestrator_engine.Ledger.Once.{outcomes-stages, terminal-is_owning}
use orchestrator_engine.Ledger.Invariant.{IsSound}
use orchestrator_engine.Ledger.Safety.Operations.{after_guard}
use orchestrator_engine.Ledger.Safety.Schedule.{All-filter}
use orchestrator_engine.Ledger.Safety.Releases.{abort-is_terminal}
use orchestrator_engine.Ledger.Safety.Reach.{IsGood, Step-IsGood}
use orchestrator_engine.Ledger.Forward.Splits.{schedule-Untouched}
use orchestrator_engine.Ledger.Forward.Steps.{
  IsClosed, Holds, Untouched-Holds, stages-Holds, save-Holds, cancel_stages-Holds, rows-in,
  settle-Holds, changed-Holds, not_granted, not_launching, not_waiting, and-left,
}

module _ (w : World) (id : String) where
  -- No identifier drawn from here on is this one.
  abbrev pub IsNotDrawn : Ledger → Type 0
  IsNotDrawn l = (n : ℕ) → l.draws ≤ n → (w.uuid n == id) ≡ false

  -- Any transactions, in which no random identifier that is drawn is the one of the stage.
  pub data Later (l : Ledger) : Ledger → Type 0 where
    here : Later l l
    then : {m n : Ledger} → Later l m → IsNotDrawn m → Step w m n → Later l n

module _ (w : World) (id : String) (P : State → Bool) (c : IsClosed P) where
  save-draws : (s : Stage) (l : Ledger) → (save w s l).1.draws ≡ l.draws
  unfolding save write event
  save-draws s l = ground arith

  new_stage-apart :
      (project request : String) (d : Definition) (l : Ledger)
      → (w.uuid l.draws == id) ≡ false
      → ((new_stage w project request d l).id == id) ≡ true
      → ⊥
  unfolding new_stage
  new_stage-apart project request d l other same = cc

  add_stages-Holds :
      (project request : String) (ds : List Definition) (l : Ledger)
      → IsNotDrawn w id l
      → Holds w id P l
      → Holds w id P (add_stages w project request ds l)
  unfolding add_stages
  add_stages-Holds project request [] l new h = h
  add_stages-Holds project request (d ∷ ds) l new h =
      add_stages-Holds project request ds _ (later_new d) (
        save-Holds w id P (new_stage w project request d l) (drawn l)
          (λ same. absurd (apart d same)) h)
    where
      drawn_more :
          (d : Definition)
          → suc l.draws ≡ (save w (new_stage w project request d l) (drawn l)).1.draws
      drawn_more d = sym (save-draws (new_stage w project request d l) (drawn l))

      apart : (d : Definition) → ((new_stage w project request d l).id == id) ≡ true → ⊥
      apart d same = new_stage-apart project request d l (new l.draws (omega arith)) same

      later_new :
          (d : Definition) → IsNotDrawn w id (save w (new_stage w project request d l) (drawn l)).1
      later_new d n more = new n (omega (arith, more, drawn_more d))

  submit-Holds :
      (project external : Json) (plan : Fields) (s : Option Subscriber) (of : String) (l m : Ledger)
      → IsNotDrawn w id l
      → Holds w id P l
      → submit w project external plan s l ≡ ok (of, m)
      → Holds w id P m
  unfolding submit submit_new add_request event
  submit-Holds project external plan s of l m new h e =
      let (project', _, e) = >>=-eq-ok (identifier project) _ e in
      let (external', _, e) = >>=-eq-ok (identifier external) _ e in
      let (ds, _, e) = >>=-eq-ok (read_plan plan) _ e in
      elim (Option-cases (known_request project' external' (values l.requests))) [
        | inl unknown ↦
            let (_, _, e) =
              >>=-eq-ok (check_definitions l.registry (names_of ds) ds) _ (rw unknown at e) in
            let l1 = add_request w project' external' (Json.obj plan) s l in
            stages-Holds w id P (add_stages w project' (w.uuid l.draws) ds l1) m
              (ap (λ r. r.1.stages) (sym (eq_of_ok e)))
              (add_stages-Holds project' (w.uuid l.draws) ds l1
                (λ n more. new n (omega (arith, more))) h)
        | inr (old, known) ↦
            let (_, done) = after_guard _ _ _ (of, m) (rw known at e) in
            subst (Holds w id P) (ap (λ r. r.1) (ok-injective done)) h
      ]

  cancel-Holds :
      (request : String) (l m : Ledger)
      → IsSound l
      → Holds w id P l
      → cancel w request l ≡ ok m
      → Holds w id P m
  unfolding cancel stages_of event
  cancel-Holds request l m v h e =
      let (r, _, e) = >>=-eq-ok (find_request request l) _ e in
      stages-Holds w id P (cancel_stages w (stages_of request l) l) m
        (outcomes-stages w (request ∷ []) _ m e)
        (cancel_stages-Holds w id P c (stages_of request l) l
          (All-filter _ _ (values l.stages)
            (rows-in w id P c l l.stages h v.keyed (IsDict-lookup l.stages v.dict)))
          h)

  Step-Holds :
      (l m : Ledger) → IsSound l → IsNotDrawn w id l → Step w l m → Holds w id P l → Holds w id P m
  unfolding configure event attach annotate admit finish recover abort_unadmitted subscribe
  Step-Holds l m v new (Step.configure raw e) h =
      let (reg, _, e) = >>=-eq-ok (normalize_registry raw) _ e in
      let (_, _, e) = >>=-eq-ok (check_stages reg l.registry (active_stages l)) _ e in
      stages-Holds w id P l m (ap (λ x. x.stages) (sym (eq_of_ok e))) h
  Step-Holds l m v new (Step.submit project external plan s of e) h =
      submit-Holds project external plan s of l m new h e
  Step-Holds l m v new (Step.schedule unavailable granted e) (s, there, p) =
      Untouched-Holds w id P l m
        (schedule-Untouched w id unavailable l m granted s v there (not_waiting w id P c s p) e)
        (s, there, p)
  Step-Holds l m v new (Step.attach of epoch identity e) h =
      let (s, found, e) = >>=-eq-ok (find_stage of l) _ e in
      let (granted, e) = after_guard (in_state State.granted s && eqb s.epoch epoch) _ _ m e in
      subst (Holds w id P) (ok-injective e) (
        changed-Holds w id P c of s _ l l v found refl refl
          (λ p. absurd (not_granted w id P c s (and-left _ _ granted) p)) h)
  Step-Holds l m v new (Step.annotate of epoch fields e) h =
      let (s, found, e) = >>=-eq-ok (find_stage of l) _ e in
      let (_, e) = after_guard (eqb s.epoch epoch && is_owning s.state) _ _ m e in
      let (_, e) = after_guard (all (contains runner_fields) (field_names fields)) _ _ m e in
      subst (Holds w id P) (ok-injective e)
        (changed-Holds w id P c of s _ l l v found refl refl (λ p. p) h)
  Step-Holds l m v new (Step.admit of token t e) h =
      let (s, found, e) = >>=-eq-ok (find_stage of l) _ e in
      let (launching, e) =
        after_guard
          (in_state State.launching s && not s.cancel_requested && same_token s.launch_token token)
          _ _ (t, m) e in
      let t' = record s { state = State.running; started_at = some (now w l) } in
      stages-Holds w id P (save w t' (tick l)).1 m (ap (λ x. x.1.stages) (sym (ok-injective e))) (
        changed-Holds w id P c of s t' l (tick l) v found refl refl
          (λ p. absurd (not_launching w id P c s (and-left _ _ (and-left _ _ launching)) p)) h)
  Step-Holds l m v new (Step.cancel request e) h = cancel-Holds request l m v h e
  Step-Holds l m v new (Step.abort of epoch token identity done e) h =
      let (s, found, e) = >>=-eq-ok (find_stage of l) _ e in
      elim (Bool-cases
        (in_state State.launching s && eqb s.epoch epoch && may_abort s token identity)) [
          | inl may ↦
              let (k, settled, e) =
                >>=-eq-ok
                  (settle w of epoch (abort_outcome token) (keys s.allocation) not_started l) _
                  (rw may at e) in
              subst (Holds w id P) (ap (λ p. p.1) (ok-injective e)) (
                settle-Holds w id P c of epoch (abort_outcome token) (keys s.allocation) _ l k v
                  (abort-is_terminal token) h settled)
          | inr not_now ↦ subst (Holds w id P) (ap (λ p. p.1) (ok-injective (rw not_now at e))) h
        ]
  Step-Holds l m v new (Step.subscribe request contract s remove e) h =
      let (r, _, e) = >>=-eq-ok (find_request request l) _ e in
      let (_, e) = after_guard (w.plan_digest r.plan == contract) _ _ m e in
      let current = find (λ t. t.id == s.id) r.subscribers in
      let (_, e) = after_guard (may_follow current s) _ _ m e in
      let known = latest (filter (of_subscriber request s.id) l.history) in
      let last =
        latest
          (filter (of_subscriber request s.id) (with_history request current known l.history)) in
      let (_, e) = after_guard (may_follow (pinned last) s) _ _ m e in
      stages-Holds w id P l m (outcomes-stages w (request ∷ []) _ m e) h
  Step-Holds l m v new (Step.finish of epoch o released evidence e) h =
      let (over, e) = after_guard (is_terminal o) _ _ m e in
      settle-Holds w id P c of epoch o released evidence l m v over h e
  Step-Holds l m v new (Step.recover of epoch released evidence e) h =
      let (s, _, e) = >>=-eq-ok (find_stage of l) _ e in
      let (_, e) =
        after_guard (in_state State.recovery_required s && is_quiescent evidence) _ _ m e in
      let (over, e) = after_guard (is_terminal (or_failed s.outcome)) _ _ m e in
      settle-Holds w id P c of epoch _ released evidence l m v over h e

  pub Later-Holds :
      (l m : Ledger) → IsGood l → Later w id l m → Holds w id P l → IsGood m × Holds w id P m
  Later-Holds l _ good Later.here h = (good, h)
  Later-Holds l m good (Later.then {m = k} later new step) h =
      let (sound, there) = Later-Holds l k good later h in
      (Step-IsGood w k m step sound, Step-Holds k m sound.0 new step there)

-- The states of a stage that has ended, and of one that was admitted or is past that.
pub terminal-IsClosed : IsClosed is_terminal
terminal-IsClosed = record {
  waits = refl;
  grants = refl;
  launches = refl;
  ends = λ st e. e;
  quarantines = both;
}
  where
    both :
        (st : State)
        → is_terminal st ≡ true
        → is_owning st ≡ true
        → is_terminal State.recovery_required ≡ true
    both st over owns = absurd (cc (terminal-is_owning st over, owns))

abbrev pub has_begun : State → Bool
has_begun State.waiting = false
has_begun State.granted = false
has_begun State.launching = false
has_begun _ = true

pub begun-IsClosed : IsClosed has_begun
begun-IsClosed = record {
  waits = refl;
  grants = refl;
  launches = refl;
  ends = past;
  quarantines = λ st p q. refl;
}
  where
    past : (st : State) → is_terminal st ≡ true → has_begun st ≡ true
    past State.waiting e = cc
    past State.granted e = cc
    past State.launching e = cc
    past _ e = refl
