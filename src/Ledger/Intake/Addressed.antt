-- ===== src/Ledger/Intake/Addressed.antt =====
-- The subscribers of requests stay valid.
use orchestrator_engine.Prelude.{
  String, Bool, true, false, ◌≡◌, sym, subst, ◌∙◌, Option, none, some, List, [], ◌∷◌, ◌==◌, All,
  filter, All-snoc, Option-cases, Bool-cases, inl, inr, find, put, lookup, Dict,
}
use orchestrator_engine.Json.{Json, Fields}
use orchestrator_engine.Lease.Identity.{at}
use orchestrator_engine.Result.{
  ok, or_raise-eq-ok, guard, >>=-eq-ok, eq_of_ok, contract_differs, pinned_destination,
  unknown_request, ok-injective,
}
use orchestrator_engine.Resources.Registry.{identifier}
use orchestrator_engine.Events.Log.{Instant}
use orchestrator_engine.Binding.{validate_subscriber}
use orchestrator_engine.Ledger.State.{
  Subscriber, Request, World, Ledger, Generation, Notice, values,
}
use orchestrator_engine.Ledger.Save.{event, find_request}
use orchestrator_engine.Ledger.Outcomes.{outcomes, latest, of_subscriber}
use orchestrator_engine.Ledger.Safety.Schedule.{All-filter}
use orchestrator_engine.Ledger.Safety.Operations.{after_guard}
use orchestrator_engine.Ledger.Subscriptions.{
  subscribe, resubscribed, with_history, may_follow, pinned, notice_of,
}
use orchestrator_engine.Ledger.Requests.{
  check_definitions, known_request, submit, submit_new, add_request,
}
use orchestrator_engine.Ledger.Plans.{Definition, names_of, read_plan}
use orchestrator_engine.Ledger.Intake.Rows.{outcomes-requests, add_stages-requests, event-requests}
use orchestrator_engine.Ledger.Intake.{received, received_if_given, submit_for, subscribe_for}

module _ (instant : String → Instant) where
  -- The subscriber passes the checks of `validate_subscriber`.
  abbrev pub IsAddressed : Subscriber → Type 0
  IsAddressed s = validate_subscriber instant (Json.obj s.body) ≡ ok tt

  abbrev pub AllAddressed : Dict Request → Type 0
  AllAddressed rs = All (λ r. All IsAddressed r.subscribers) (values rs)

  received-IsAddressed : (raw : Json) (s : Subscriber) → received instant raw ≡ ok s → IsAddressed s
  unfolding received
  received-IsAddressed (Json.obj body) s h =
      let (_, valid, h) = >>=-eq-ok (validate_subscriber instant (Json.obj body)) _ h in
      let (_, _, e) = >>=-eq-ok (identifier (at "id" body)) _ h in
      subst IsAddressed (eq_of_ok e) valid
  received-IsAddressed _ s h = cc

  AllAddressed-put :
      (k : String) (r : Request) (rs : Dict Request)
      → AllAddressed rs
      → All IsAddressed r.subscribers
      → AllAddressed (put k r rs)
  unfolding put values
  AllAddressed-put k r [] h p = (p, tt)
  AllAddressed-put k r ((j, q) ∷ rs) (g, h) p = elim (Bool-cases (j == k)) [
    | inl same ↦ rw same (p, h)
    | inr other ↦ rw other (g, AllAddressed-put k r rs h p)
  ]

  lookup-AllAddressed :
      (k : String) (r : Request) (rs : Dict Request)
      → AllAddressed rs
      → lookup k rs ≡ some r
      → All IsAddressed r.subscribers
  unfolding lookup values
  lookup-AllAddressed k r [] h there = cc
  lookup-AllAddressed k r ((j, q) ∷ rs) (g, h) there = elim (Bool-cases (j == k)) [
    | inl same ↦ subst (λ x. All IsAddressed x.subscribers) (some_of (rw same at there)) g
    | inr other ↦ lookup-AllAddressed k r rs h (rw other at there)
  ]
    where
      some_of : some q ≡ some r → q ≡ r
      some_of e = cc

module _ (instant : String → Instant) (w : World) where
  resubscribed-IsAddressed :
      (request : String) (remove : Bool) (current : Option Subscriber) (s : Subscriber)
      (r : Request) (last : Option Generation) (gs : List Generation)
      → IsAddressed instant s
      → All (IsAddressed instant) r.subscribers
      → All (IsAddressed instant) (resubscribed request remove current s r last gs).0.subscribers
  unfolding resubscribed
  resubscribed-IsAddressed request true current s r last gs p h =
      All-filter (IsAddressed instant) _ r.subscribers h
  resubscribed-IsAddressed request false none s r last gs p h =
      All-snoc (IsAddressed instant) r.subscribers s h p
  resubscribed-IsAddressed request false (some c) s r last gs p h = h

  abbrev resubscribing :
      (request : String) (remove : Bool) (s : Subscriber) (l : Ledger) (r : Request)
      (gs : List Generation)
      → Ledger
  resubscribing request remove s l r gs =
      let current = find (λ t. t.id == s.id) r.subscribers in
      let last = latest (filter (of_subscriber request s.id) gs) in
      let (r', gs') = resubscribed request remove current s r last gs in
      event w request (notice_of remove)
        (record l { requests = put request r' l.requests; history = gs' })

  resubscribing-AllAddressed :
      (request : String) (remove : Bool) (s : Subscriber) (l m : Ledger) (r : Request)
      (gs : List Generation)
      → IsAddressed instant s
      → AllAddressed instant l.requests
      → All (IsAddressed instant) r.subscribers
      → outcomes w (request ∷ []) (resubscribing request remove s l r gs) ≡ ok m
      → AllAddressed instant m.requests
  unfolding event
  resubscribing-AllAddressed request remove s l m r gs p h q e =
      subst (AllAddressed instant)
        (sym (outcomes-requests w (request ∷ []) (resubscribing request remove s l r gs) m e))
        (AllAddressed-put instant request _ l.requests h
          (resubscribed-IsAddressed request remove _ s r _ gs p q))

  subscribe-AllAddressed :
      (request contract : String) (s : Subscriber) (remove : Bool) (l m : Ledger)
      → IsAddressed instant s
      → AllAddressed instant l.requests
      → subscribe w request contract s remove l ≡ ok m
      → AllAddressed instant m.requests
  unfolding subscribe find_request
  subscribe-AllAddressed request contract s remove l m p h e =
      let (r, there, e) = >>=-eq-ok (find_request request l) _ e in
      let current = find (λ t. t.id == s.id) r.subscribers in
      let gs =
        with_history request current (latest (filter (of_subscriber request s.id) l.history))
          l.history in
      let last = latest (filter (of_subscriber request s.id) gs) in
      let (_, _, e) = >>=-eq-ok (guard (w.plan_digest r.plan == contract) contract_differs) _ e in
      let (_, _, e) = >>=-eq-ok (guard (may_follow current s) pinned_destination) _ e in
      let (_, _, e) = >>=-eq-ok (guard (may_follow (pinned last) s) pinned_destination) _ e in
      resubscribing-AllAddressed request remove s l m r gs p h
        (lookup-AllAddressed instant request r l.requests h
          (or_raise-eq-ok _ unknown_request there))
        e

  -- The subscriber, where one is given.
  abbrev IsAddressedIfGiven : Option Subscriber → Type 0
  IsAddressedIfGiven none = Unit {0}
  IsAddressedIfGiven (some s) = IsAddressed instant s

  add_request-AllAddressed :
      (project external : String) (plan : Json) (s : Option Subscriber) (l : Ledger)
      → IsAddressedIfGiven s
      → AllAddressed instant l.requests
      → AllAddressed instant (add_request w project external plan s l).requests
  unfolding add_request
  add_request-AllAddressed project external plan none l p h =
      AllAddressed-put instant _ _ l.requests h tt
  add_request-AllAddressed project external plan (some s) l p h =
      AllAddressed-put instant _ _ l.requests h (p, tt)

  submit_new-AllAddressed :
      (project external : String) (plan : Json) (ds : List Definition) (s : Option Subscriber)
      (l : Ledger) (r : String × Ledger)
      → IsAddressedIfGiven s
      → AllAddressed instant l.requests
      → submit_new w project external plan ds s l ≡ ok r
      → AllAddressed instant r.1.requests
  unfolding submit_new
  submit_new-AllAddressed project external plan ds s l r p h e =
      let (_, _, e) = >>=-eq-ok (check_definitions l.registry (names_of ds) ds) _ e in
      subst (λ x. AllAddressed instant x.1.requests) (eq_of_ok e)
        (subst (AllAddressed instant)
          (sym (
            event-requests w _ (Notice.submitted project external) _
            ∙ add_stages-requests w project (w.uuid l.draws) ds
                (add_request w project external plan s l)))
          (add_request-AllAddressed project external plan s l p h))

  submit-AllAddressed :
      (project external : Json) (plan : Fields) (s : Option Subscriber) (l : Ledger)
      (r : String × Ledger)
      → IsAddressedIfGiven s
      → AllAddressed instant l.requests
      → submit w project external plan s l ≡ ok r
      → AllAddressed instant r.1.requests
  unfolding submit
  submit-AllAddressed project external plan s l r p h e =
      let (project', _, e) = >>=-eq-ok (identifier project) _ e in
      let (external', _, e) = >>=-eq-ok (identifier external) _ e in
      let (ds, _, e) = >>=-eq-ok (read_plan plan) _ e in
      elim (Option-cases (known_request project' external' (values l.requests))) [
        | inl new ↦
            submit_new-AllAddressed project' external' (Json.obj plan) ds s l r p h (rw new at e)
        | inr (old, known) ↦
            let (_, done) = after_guard _ _ _ r (rw known at e) in
            subst (λ x. AllAddressed instant x.1.requests) (ok-injective done) h
      ]

  received_if_given-IsAddressed :
      (raw : Option Json) (s : Option Subscriber)
      → received_if_given instant raw ≡ ok s
      → IsAddressedIfGiven s
  unfolding received_if_given
  received_if_given-IsAddressed none s h = subst IsAddressedIfGiven (eq_of_ok h) tt
  received_if_given-IsAddressed (some raw) s h =
      let (t, got, e) = >>=-eq-ok (received instant raw) _ h in
      subst IsAddressedIfGiven (eq_of_ok e) (received-IsAddressed instant raw t got)

  -- The two transactions that bring a subscriber.
  pub data Taken (l : Ledger) : Ledger → Type 0 where
    submitted :
        {r : String × Ledger} (project external : Json) (plan : Fields) (raw : Option Json)
        → submit_for instant w project external plan raw l ≡ ok r
        → Taken l r.1
    subscribed :
        {m : Ledger} (request contract : String) (raw : Json) (remove : Bool)
        → subscribe_for instant w request contract raw remove l ≡ ok m
        → Taken l m

  -- Where all subscribers of all requests pass `validate_subscriber`, so that each wake target among
  -- them is valid, they do behind a submission and behind a subscription, with any subscriber.
  pub Taken-AllAddressed :
      (l m : Ledger) → AllAddressed instant l.requests → Taken l m → AllAddressed instant m.requests
  unfolding submit_for subscribe_for
  Taken-AllAddressed l _ h (Taken.submitted {r} project external plan raw e) =
      let (_, _, e) = >>=-eq-ok (identifier project) _ e in
      let (_, _, e) = >>=-eq-ok (identifier external) _ e in
      let (s, got, e) = >>=-eq-ok (received_if_given instant raw) _ e in
      submit-AllAddressed project external plan s l r (received_if_given-IsAddressed raw s got) h e
  Taken-AllAddressed l m h (Taken.subscribed request contract raw remove e) =
      let (s, got, e) = >>=-eq-ok (received instant raw) _ e in
      subscribe-AllAddressed request contract s remove l m (received-IsAddressed instant raw s got)
        h e
