-- ===== src/Ledger/Invariant/CalmSteps.antt =====
-- Steps that hand out nothing and take nothing back.
use mathlib.Core.Path.{subst₂}
use orchestrator_engine.Prelude.{
  String, ◌≡◌, refl, sym, ap, subst, ◌∙◌, List, [], ◌∷◌, arith, All, IsDict, Bool-cases, inl, inr,
}
use orchestrator_engine.Result.{ok, >>=-eq-ok, ok-injective}
use orchestrator_engine.Resources.Claims.{Allocation}
use orchestrator_engine.Resources.Claims.Safety.{IsSafe}
use orchestrator_engine.Ledger.State.{
  Stage, Notice, World, Ledger, Subscriber, Request, values, owned, held,
}
use orchestrator_engine.Ledger.Save.{event, save, find_request}
use orchestrator_engine.Ledger.Held.{save-registry}
use orchestrator_engine.Ledger.Outcomes.{
  notify, notify_all, outcome, outcomes, is_settled, stages_of,
}
use orchestrator_engine.Ledger.Invariant.Free.{
  IsSound, IsFree, RowOwns, Agrees, held-save-Agrees, RowOwns-save, keyed-save, IsDict-save,
}

pub record Calm (l m : Ledger) : Type 0 where
  pub registry : m.registry ≡ l.registry
  pub same : held m ≡ held l
  pub owns : (id : String) (a : List Allocation) → RowOwns l id a → RowOwns m id a
  pub keyed : All (λ e. e.1.id ≡ e.0) l.stages → All (λ e. e.1.id ≡ e.0) m.stages
  pub dict : IsDict l.stages → IsDict m.stages

pub Calm-IsSound : {l m : Ledger} → Calm l m → IsSound l → IsSound m
Calm-IsSound {l} {m} c v = record {
  keyed = c.keyed v.keyed;
  dict = c.dict v.dict;
  safe = subst₂ IsSafe (sym c.registry) (sym c.same) v.safe;
}

-- The ledger behind a step is sound, over the same registry.
abbrev pub Keeps : Ledger → Ledger → Type 0
Keeps l m = IsSound m × (m.registry ≡ l.registry)

pub Calm-Keeps : {l m : Ledger} → Calm l m → IsSound l → Keeps l m
Calm-Keeps c v = (Calm-IsSound c v, c.registry)

pub Calm-trans : {l m n : Ledger} → Calm l m → Calm m n → Calm l n
Calm-trans c d = record {
  registry = d.registry ∙ c.registry;
  same = d.same ∙ c.same;
  owns = λ id a f. d.owns id a (c.owns id a f);
  keyed = λ k. d.keyed (c.keyed k);
  dict = λ k. d.dict (c.dict k);
}

-- Only the rows and the registry matter.
pub Calm-of_stages : (l m : Ledger) → m.registry ≡ l.registry → m.stages ≡ l.stages → Calm l m
unfolding held
Calm-of_stages l m e f = record {
  registry = e;
  same = ap (λ rows. owned (values rows)) f;
  owns = λ id a h. rw f h;
  keyed = λ h. rw f h;
  dict = λ h. rw f h;
}

pub Calm-self : (l : Ledger) → Calm l l
Calm-self l = Calm-of_stages l l refl refl

pub event-Calm :
    (w : World) (subject : String) (n : Notice) (l : Ledger) → Calm l (event w subject n l)
unfolding event
event-Calm w subject n l = Calm-of_stages l _ refl refl

pub save-Calm : (w : World) (s : Stage) (l : Ledger) → Agrees l s → Calm l (save w s l).1
save-Calm w s l f = record {
  registry = save-registry w s l;
  same = held-save-Agrees w s l f;
  owns = λ id a h. RowOwns-save w s l id a f h;
  keyed = keyed-save w s l;
  dict = IsDict-save w s l;
}

pub All-IsFree-Calm :
    {l m : Ledger} → Calm l m → (xs : List Stage) → All (IsFree l) xs → All (IsFree m) xs
All-IsFree-Calm c [] h = tt
All-IsFree-Calm c (x ∷ xs) ((mine, row), h) = ((mine, c.owns x.id [] row), All-IsFree-Calm c xs h)

-- Outcomes write to the outbox and to the history of subscribers alone.
notify-Calm :
    (w : World) (r : Request) (stages : List Stage) (s : Subscriber) (l : Ledger)
    → Calm l (notify w r stages s l)
unfolding notify
notify-Calm w r stages s l = Calm-of_stages l _ (ground arith) (ground arith)

notify_all-Calm :
    (w : World) (r : Request) (stages : List Stage) (ss : List Subscriber) (l : Ledger)
    → Calm l (notify_all w r stages ss l)
unfolding notify_all
notify_all-Calm w r stages [] l = Calm-self l
notify_all-Calm w r stages (s ∷ ss) l =
    Calm-trans (notify-Calm w r stages s l) (notify_all-Calm w r stages ss (notify w r stages s l))

outcome-Calm : (w : World) (request : String) (l m : Ledger) → outcome w request l ≡ ok m → Calm l m
unfolding outcome
outcome-Calm w request l m e = elim (Bool-cases (is_settled (stages_of request l))) [
  | inl settled ↦
      let (r, _, e') = >>=-eq-ok (find_request request l) _ (rw (settled, outcome) at e) in
      subst (Calm l) (ok-injective e') (notify_all-Calm w r (stages_of request l) r.subscribers l)
  | inr open_still ↦ subst (Calm l) (ok-injective (rw (open_still, outcome) at e)) (Calm-self l)
]

pub outcomes-Calm :
    (w : World) (requests : List String) (l m : Ledger) → outcomes w requests l ≡ ok m → Calm l m
unfolding outcomes
outcomes-Calm w [] l m e = subst (Calm l) (ok-injective e) (Calm-self l)
outcomes-Calm w (request ∷ requests) l m e =
    let (l', first, e') = >>=-eq-ok (outcome w request l) _ e in
    Calm-trans (outcome-Calm w request l l' first) (outcomes-Calm w requests l' m e')
