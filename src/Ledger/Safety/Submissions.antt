-- ===== src/Ledger/Safety/Submissions.antt =====
-- `submit` and what it adds to the ledger.
use mathlib.Core.List.{append-nil}
use orchestrator_engine.Prelude.{
  find, filter, Bool, ◌==◌, String, ◌≡◌, refl, sym, ap, subst, ◌∙◌, inl, inr, Option, none, List,
  [], ◌∷◌, ◌++◌, lookup, Option-cases,
}
use orchestrator_engine.Json.{Json, Fields}
use orchestrator_engine.Result.{ok, >>=-eq-ok, ok-injective}
use orchestrator_engine.Resources.Registry.{identifier}
use orchestrator_engine.Resources.Claims.Safety.{IsSafe}
use orchestrator_engine.Ledger.State.{
  Stage, Subscriber, Notice, World, Ledger, values, own, owned, held,
}
use orchestrator_engine.Ledger.Save.{find_request, event, save}
use orchestrator_engine.Ledger.Held.{save-registry, save-own, save-stages, owned-put_new}
use orchestrator_engine.Ledger.Plans.{Definition, names_of, read_plan}
use orchestrator_engine.Ledger.Requests.{
  new_stage, drawn, add_stages, add_request, known_request, check_definitions, submit_new, submit,
}
use orchestrator_engine.Ledger.Subscriptions.{may_follow, with_history, pinned, subscribe}
use orchestrator_engine.Ledger.Outcomes.{latest, of_subscriber}
use orchestrator_engine.Ledger.Invariant.{
  Calm-trans, IsSound, Keeps, Calm-IsSound, Calm-of_stages, event-Calm, outcomes-Calm, Calm-Keeps,
  keyed-save, IsDict-save,
}
use orchestrator_engine.Ledger.Safety.Operations.{after_guard}
use orchestrator_engine.Ledger.Safety.Releases.{Shrinks, Shrinks-none, shrunk-IsSound}

-- A stage that owns nothing may come under any id, old or new.
added-IsSound :
    (w : World) (t : Stage) (l : Ledger) → IsSound l → own t ≡ [] → IsSound (save w t l).1
unfolding held
added-IsSound w t l v mine = elim (Option-cases (lookup t.id l.stages)) [
  | inl new ↦ record {
    keyed = keyed-save w t l v.keyed;
    dict = IsDict-save w t l v.dict;
    safe =
        subst (λ reg. IsSafe reg (held (save w t l).1)) (sym (save-registry w t l))
          (subst (IsSafe l.registry) (sym (same new)) v.safe);
  }
  | inr (s, row) ↦
      shrunk-IsSound w s t l v row
        (subst (λ xs. Shrinks xs (own s)) (sym mine) (Shrinks-none (own s)))
]
  where
    same : lookup t.id l.stages ≡ none → held (save w t l).1 ≡ held l
    same new =
        ap (λ rows. owned (values rows)) (save-stages w t l)
        ∙ owned-put_new t.id (save w t l).0 l.stages new
        ∙ ap (◌++◌ (held l)) (save-own w t l ∙ mine)
        ∙ append-nil (held l)

add_stages-IsSound :
    (w : World) (project request : String) (ds : List Definition) (l : Ledger)
    → IsSound l
    → IsSound (add_stages w project request ds l)
unfolding add_stages new_stage
add_stages-IsSound w project request [] l v = v
add_stages-IsSound w project request (d ∷ ds) l v =
    add_stages-IsSound w project request ds (save w (new_stage w project request d l) (drawn l)).1 (
      added-IsSound w (new_stage w project request d l) (drawn l)
        (Calm-IsSound (Calm-of_stages l (drawn l) refl refl) v) refl)

add_stages-registry :
    (w : World) (project request : String) (ds : List Definition) (l : Ledger)
    → (add_stages w project request ds l).registry ≡ l.registry
unfolding add_stages
add_stages-registry w project request [] l = refl
add_stages-registry w project request (d ∷ ds) l =
    add_stages-registry w project request ds (save w (new_stage w project request d l) (drawn l)).1
    ∙ save-registry w (new_stage w project request d l) (drawn l)

submit_new-IsSound :
    (w : World) (project external : String) (plan : Json) (ds : List Definition)
    (subscriber : Option Subscriber) (id : String) (l m : Ledger)
    → IsSound l
    → submit_new w project external plan ds subscriber l ≡ ok (id, m)
    → Keeps l m
unfolding submit_new add_request event
submit_new-IsSound w project external plan ds subscriber id l m v e =
    let (_, _, done) = >>=-eq-ok (check_definitions l.registry (names_of ds) ds) _ e in
    let l1 = add_request w project external plan subscriber l in
    let added =
      add_stages-IsSound w project (w.uuid l.draws) ds l1
        (Calm-IsSound (Calm-of_stages l l1 refl refl) v) in
    let same = ap (λ p. p.1) (ok-injective done) in
    subst (Keeps l) same (
      Calm-IsSound
          (event-Calm w (w.uuid l.draws) (Notice.submitted project external)
            (add_stages w project (w.uuid l.draws) ds l1))
          added,
      add_stages-registry w project (w.uuid l.draws) ds l1,
    )

pub submit-IsSound :
    (w : World) (project external : Json) (plan : Fields) (subscriber : Option Subscriber)
    (id : String) (l m : Ledger)
    → IsSound l
    → submit w project external plan subscriber l ≡ ok (id, m)
    → Keeps l m
unfolding submit
submit-IsSound w project external plan subscriber id l m v e =
    let (p, _, e1) = >>=-eq-ok (identifier project) _ e in
    let (x, _, e2) = >>=-eq-ok (identifier external) _ e1 in
    let (ds, _, e3) = >>=-eq-ok (read_plan plan) _ e2 in
    elim (Option-cases (known_request p x (values l.requests))) [
      | inl new ↦ submit_new-IsSound w p x (Json.obj plan) ds subscriber id l m v (rw new at e3)
      | inr (r, old) ↦
          let (_, done) = after_guard _ _ _ (id, m) (rw old at e3) in
          subst (Keeps l) (ap (λ p. p.1) (ok-injective done)) (v, refl)
    ]

-- `subscribe` writes the row of a request, the history and the outbox alone.
pub subscribe-IsSound :
    (w : World) (request contract : String) (s : Subscriber) (remove : Bool) (l m : Ledger)
    → IsSound l
    → subscribe w request contract s remove l ≡ ok m
    → Keeps l m
unfolding subscribe event
subscribe-IsSound w request contract s remove l m v e =
    let (r, _, e1) = >>=-eq-ok (find_request request l) _ e in
    let (_, e2) = after_guard (w.plan_digest r.plan == contract) _ _ m e1 in
    let current = find (λ t. t.id == s.id) r.subscribers in
    let (_, e3) = after_guard (may_follow current s) _ _ m e2 in
    let known = latest (filter (of_subscriber request s.id) l.history) in
    let last =
      latest (filter (of_subscriber request s.id) (with_history request current known l.history)) in
    let (_, e4) = after_guard (may_follow (pinned last) s) _ _ m e3 in
    Calm-Keeps (Calm-trans (Calm-of_stages l _ refl refl) (outcomes-Calm w (request ∷ []) _ m e4)) v
