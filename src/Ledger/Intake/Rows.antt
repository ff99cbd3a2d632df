-- ===== src/Ledger/Intake/Rows.antt =====
-- What leaves the rows of requests as they are.
use orchestrator_engine.Prelude.{
  String, ◌≡◌, refl, sym, ap, ◌∙◌, List, [], ◌∷◌, Bool-cases, inl, inr, arith,
}
use orchestrator_engine.Result.{ok, >>=-eq-ok, eq_of_ok}
use orchestrator_engine.Ledger.State.{Subscriber, Request, Stage, World, Ledger, Notice}
use orchestrator_engine.Ledger.Save.{save, event, write, find_request}
use orchestrator_engine.Ledger.Outcomes.{
  notify, notify_all, outcome, outcomes, is_settled, stages_of,
}
use orchestrator_engine.Ledger.Requests.{add_stages, new_stage, drawn}
use orchestrator_engine.Ledger.Plans.{Definition}

-- Outcomes leave the requests as they are.
module _ (w : World) where
  notify-requests :
      (r : Request) (stages : List Stage) (s : Subscriber) (l : Ledger)
      → (notify w r stages s l).requests ≡ l.requests
  unfolding notify
  notify-requests r stages s l = ground arith

  notify_all-requests :
      (r : Request) (stages : List Stage) (ss : List Subscriber) (l : Ledger)
      → (notify_all w r stages ss l).requests ≡ l.requests
  unfolding notify_all
  notify_all-requests r stages [] l = refl
  notify_all-requests r stages (s ∷ ss) l =
      notify_all-requests r stages ss (notify w r stages s l) ∙ notify-requests r stages s l

  outcome-requests :
      (request : String) (l m : Ledger) → outcome w request l ≡ ok m → m.requests ≡ l.requests
  unfolding outcome
  outcome-requests request l m h = elim (Bool-cases (is_settled (stages_of request l))) [
    | inl settled ↦
        let (r, _, e) = >>=-eq-ok (find_request request l) _ (rw settled at h) in
        ap (λ x. x.requests) (sym (eq_of_ok e)) ∙ notify_all-requests r _ r.subscribers l
    | inr unsettled ↦ ap (λ x. x.requests) (sym (eq_of_ok (rw unsettled at h)))
  ]

  pub outcomes-requests :
      (requests : List String) (l m : Ledger)
      → outcomes w requests l ≡ ok m
      → m.requests ≡ l.requests
  unfolding outcomes
  outcomes-requests [] l m h = ap (λ x. x.requests) (sym (eq_of_ok h))
  outcomes-requests (request ∷ requests) l m h =
      let (k, first, rest) = >>=-eq-ok (outcome w request l) _ h in
      outcomes-requests requests k m rest ∙ outcome-requests request l k first

  save-requests : (s : Stage) (l : Ledger) → (save w s l).1.requests ≡ l.requests
  unfolding save event write
  save-requests s l = ground arith

  pub add_stages-requests :
      (project request : String) (ds : List Definition) (l : Ledger)
      → (add_stages w project request ds l).requests ≡ l.requests
  unfolding add_stages
  add_stages-requests project request [] l = refl
  add_stages-requests project request (d ∷ ds) l =
      add_stages-requests project request ds _
      ∙ save-requests (new_stage w project request d l) (drawn l)

  pub event-requests :
      (subject : String) (n : Notice) (l : Ledger) → (event w subject n l).requests ≡ l.requests
  unfolding event
  event-requests subject n l = refl
