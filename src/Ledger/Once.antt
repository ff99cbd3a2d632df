-- ===== src/Ledger/Once.antt =====
-- The row that a completion leaves, and what is refused to a stage that has ended.
use orchestrator_engine.Prelude.{
  ℕ, String, ◌≡◌, refl, sym, ap, subst, ◌∙◌, inl, inr, true, false, not, ◌&&◌, some, List, [], ◌∷◌,
  arith, eqb, Bool-cases, lookup, keys, test_self, all, contains,
}
use orchestrator_engine.Json.{Json}
use orchestrator_engine.Result.{ok, err, >>=-eq-ok, ok-injective, stale_completion}
use orchestrator_engine.Ledger.State.{
  State, is_terminal, is_owning, Stage, Subscriber, Request, World, Ledger,
}
use orchestrator_engine.Ledger.Save.{find_stage, find_request, now, tick, event, save}
use orchestrator_engine.Ledger.Held.{lookup-save}
use orchestrator_engine.Ledger.Outcomes.{
  stages_of, is_settled, notify, notify_all, outcome, outcomes,
}
use orchestrator_engine.Ledger.Operations.{
  without, is_empty, completed, groups_of, is_coupled, settle,
}
use orchestrator_engine.Ledger.Safety.Operations.{after_guard}

module _ (w : World) (s : Stage) (l : Ledger) where
  pub save-state : (save w s l).0.state ≡ s.state
  unfolding save
  save-state = ground arith

  save-launch_token : (save w s l).0.launch_token ≡ s.launch_token
  unfolding save
  save-launch_token = ground arith

  pub saved_row : lookup s.id (save w s l).1.stages ≡ some (save w s l).0
  saved_row = lookup-save w s l s.id ∙ rw (test_self s.id) refl

-- Outcomes leave the rows of stages.
notify_all-stages :
    (w : World) (r : Request) (stages : List Stage) (ss : List Subscriber) (l : Ledger)
    → (notify_all w r stages ss l).stages ≡ l.stages
unfolding notify_all notify
notify_all-stages w r stages [] l = refl
notify_all-stages w r stages (s ∷ ss) l =
    notify_all-stages w r stages ss (notify w r stages s l) ∙ ground arith

outcome-stages :
    (w : World) (request : String) (l m : Ledger) → outcome w request l ≡ ok m → m.stages ≡ l.stages
unfolding outcome
outcome-stages w request l m e = elim (Bool-cases (is_settled (stages_of request l))) [
  | inl settled ↦
      let (r, _, e') = >>=-eq-ok (find_request request l) _ (rw (settled, outcome) at e) in
      subst (λ n. n.stages ≡ l.stages) (ok-injective e')
        (notify_all-stages w r (stages_of request l) r.subscribers l)
  | inr open_still ↦
      subst (λ n. n.stages ≡ l.stages) (ok-injective (rw (open_still, outcome) at e)) refl
]

pub outcomes-stages :
    (w : World) (requests : List String) (l m : Ledger)
    → outcomes w requests l ≡ ok m
    → m.stages ≡ l.stages
unfolding outcomes
outcomes-stages w [] l m e = ap (λ n. n.stages) (sym (ok-injective e))
outcomes-stages w (request ∷ requests) l m e =
    let (l', first, e') = >>=-eq-ok (outcome w request l) _ e in
    outcomes-stages w requests l' m e' ∙ outcome-stages w request l l' first

completed-id :
    (s : Stage) (o : State) (released : List String) (evidence : Json) (at : ℕ)
    → (completed s o released evidence at).id ≡ s.id
unfolding completed
completed-id s o released evidence at = refl

-- The row that a completion leaves.
pub settle-row :
    (w : World) (id : String) (epoch : ℕ) (o : State) (released : List String) (evidence : Json)
    (s : Stage) (l m : Ledger)
    → s.id ≡ id
    → find_stage id l ≡ ok s
    → settle w id epoch o released evidence l ≡ ok m
    → lookup id m.stages ≡ some (save w (completed s o released evidence (now w l)) (tick l)).0
unfolding settle event
settle-row w id epoch o released evidence s l m named found e =
    let (_, rest1) = after_guard (eqb s.epoch epoch && is_owning s.state) _ _ m (rw found at e) in
    let (_, rest2) = after_guard (all (contains (keys s.allocation)) released) _ _ m rest1 in
    let (groups, _, rest3) = >>=-eq-ok (groups_of l.registry released) _ rest2 in
    let (coupled, _, rest4) =
      >>=-eq-ok (is_coupled l.registry released groups (keys s.allocation)) _ rest3 in
    let (_, rest5) = after_guard (not coupled) _ _ m rest4 in
    let t = completed s o released evidence (now w l) in
    ap (lookup id) (outcomes-stages w (s.request ∷ []) _ m rest5)
    ∙ subst (λ x. lookup x (save w t (tick l)).1.stages ≡ some (save w t (tick l)).0)
        (completed-id s o released evidence (now w l) ∙ named) (saved_row w t (tick l))

pub settle-terminal :
    (w : World) (id : String) (epoch : ℕ) (o : State) (released : List String) (evidence : Json)
    (s : Stage) (l : Ledger)
    → lookup id l.stages ≡ some s
    → is_owning s.state ≡ false
    → settle w id epoch o released evidence l ≡ err stale_completion
unfolding settle find_stage
settle-terminal w id epoch o released evidence s l row over = ground arith

pub terminal-is_owning : (st : State) → is_terminal st ≡ true → is_owning st ≡ false
terminal-is_owning st e = ground arith

pub completed-state :
    (s : Stage) (o : State) (released : List String) (evidence : Json) (at : ℕ)
    → is_empty (without released s.allocation) ≡ true
    → (completed s o released evidence at).state ≡ o
unfolding completed
completed-state s o released evidence at e = rw e refl
