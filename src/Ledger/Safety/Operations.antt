-- ===== src/Ledger/Safety/Operations.antt =====
-- The operations on a granted stage and on a request: what each does to what is held.
use orchestrator_engine.Prelude.{
  ℕ, String, ◌≡◌, refl, sym, ap, subst, ◌∙◌, inl, inr, Bool, true, false, not, ◌&&◌, some, List, [],
  ◌∷◌, ◌==◌, eqb, arith, All, Bool-cases, lookup, Dict, IsDict-lookup, eq_of_test, eq_of_some,
}
use orchestrator_engine.Json.{Json, Fields}
use orchestrator_engine.Result.{Result, Error, ok, guard, ◌>>=◌, >>=-eq-ok, ok-injective}
use orchestrator_engine.Ledger.State.{
  State, is_owning, same_state, Stage, Notice, World, Ledger, values, own,
}
use orchestrator_engine.Ledger.Save.{find_stage, find_request, now, tick, save}
use orchestrator_engine.Ledger.Outcomes.{in_state, stages_of}
use orchestrator_engine.Ledger.Operations.{
  attach, annotate, admit, same_token, cancel_stage, cancel_stages, cancel,
}
use orchestrator_engine.Ledger.Safety.Schedule.{All-filter}
use orchestrator_engine.Ledger.Invariant.{
  IsSound, Agrees, Calm, Keeps, Calm-Keeps, Calm-trans, Calm-self, Calm-of_stages, event-Calm,
  save-Calm, outcomes-Calm,
}

-- The row that an operation finds has the id that it was looked up by.
keyed-lookup :
    (id : String) (s : Stage) (rows : Dict Stage)
    → All (λ e. e.1.id ≡ e.0) rows
    → lookup id rows ≡ some s
    → s.id ≡ id
unfolding lookup
keyed-lookup id s [] k e = cc
keyed-lookup id s ((j, t) ∷ rows) (named, k) e = elim (Bool-cases (j == id)) [
  | inl hit ↦ ap (λ x. x.id) (sym (eq_of_some (rw hit at e))) ∙ named ∙ eq_of_test j id hit
  | inr miss ↦ keyed-lookup id s rows k (rw miss at e)
]

pub find_stage-id :
    (id : String) (s : Stage) (l : Ledger) → IsSound l → find_stage id l ≡ ok s → s.id ≡ id
unfolding find_stage
find_stage-id id s l v e = keyed-lookup id s l.stages v.keyed (ground arith)

pub find_stage-row :
    (id : String) (s : Stage) (l : Ledger)
    → IsSound l
    → find_stage id l ≡ ok s
    → lookup s.id l.stages ≡ some s
unfolding find_stage
find_stage-row id s l v e =
    let at : lookup id l.stages ≡ some s = ground arith in
    subst (λ x. lookup x l.stages ≡ some s) (sym (keyed-lookup id s l.stages v.keyed at)) at

-- A change of a stage that leaves what it owns.
kept-Calm :
    (w : World) (s t : Stage) (l : Ledger)
    → lookup s.id l.stages ≡ some s
    → t.id ≡ s.id
    → own s ≡ own t
    → Calm l (save w t l).1
kept-Calm w s t l row named mine =
    save-Calm w t l (s, subst (λ x. lookup x l.stages ≡ some s) (sym named) row, mine)

-- An operation that begins with the row of a stage, and one that goes on after a test.
pub with_stage :
    {A : Type 0} (P : A → Type 0) (body : Stage → Result A) (id : String) (l : Ledger) (a : A)
    → IsSound l
    → ((s : Stage) → lookup s.id l.stages ≡ some s → body s ≡ ok a → P a)
    → (find_stage id l >>= body) ≡ ok a
    → P a
with_stage P body id l a v step e =
    let (s, found, rest) = >>=-eq-ok (find_stage id l) body e in
    step s (find_stage-row id s l v found) rest

pub after_guard :
    {A : Type 0} (b : Bool) (x : Error) (rest : Result A) (a : A)
    → (guard b x >>= λ _. rest) ≡ ok a
    → (b ≡ true) × (rest ≡ ok a)
after_guard true x rest a e = (refl, e)
after_guard false x rest a e = cc

pub own_of : (s : Stage) → is_owning s.state ≡ true → own s ≡ s.allocation ∷ []
own_of s e = rw e

in_state-is_owning : (st st' : State) → same_state st st' ≡ true → is_owning st ≡ is_owning st'
unfolding same_state
in_state-is_owning st st' e = ground arith

-- Saving a stage that keeps its id, its allocation and whether it owns it.
pub saved-IsSound :
    (w : World) (s t : Stage) (l m : Ledger)
    → IsSound l
    → lookup s.id l.stages ≡ some s
    → t.id ≡ s.id
    → own s ≡ own t
    → ok (save w t l).1 ≡ ok m
    → Keeps l m
saved-IsSound w s t l m v row named mine e =
    subst (Keeps l) (ok-injective e) (Calm-Keeps (kept-Calm w s t l row named mine) v)

pub attach-IsSound :
    (w : World) (id : String) (epoch : ℕ) (identity : Json) (l m : Ledger)
    → IsSound l
    → attach w id epoch identity l ≡ ok m
    → Keeps l m
unfolding attach
attach-IsSound w id epoch identity l m v e =
    with_stage (Keeps l) _ id l m v
      (λ s row rest.
        let (granted, done) =
          after_guard (in_state State.granted s && eqb s.epoch epoch) _ _ m rest in
        saved-IsSound w s _ l m v row refl
          (own_of s (in_state-is_owning s.state State.granted (ground (arith, granted)))) done)
      e

pub annotate-IsSound :
    (w : World) (id : String) (epoch : ℕ) (fields : Fields) (l m : Ledger)
    → IsSound l
    → annotate w id epoch fields l ≡ ok m
    → Keeps l m
unfolding annotate
annotate-IsSound w id epoch fields l m v e =
    with_stage (Keeps l) _ id l m v
      (λ s row rest.
        let (_, rest') = after_guard (eqb s.epoch epoch && is_owning s.state) _ _ m rest in
        let (_, done) = after_guard _ _ _ m rest' in saved-IsSound w s _ l m v row refl refl done)
      e

pub tick-Calm : (l : Ledger) → Calm l (tick l)
tick-Calm l = Calm-of_stages l (tick l) refl refl

pub admit-IsSound :
    (w : World) (id token : String) (s : Stage) (l m : Ledger)
    → IsSound l
    → admit w id token l ≡ ok (s, m)
    → Keeps l m
unfolding admit
admit-IsSound w id token s l m v e =
    with_stage (λ p. Keeps l p.1) _ id l (s, m) v
      (λ r row rest.
        let may =
          in_state State.launching r && not r.cancel_requested && same_token r.launch_token token in
        let (launching, done) = after_guard may _ _ (s, m) rest in
        let saved =
          kept-Calm w r (record r { state = State.running; started_at = some (now w l) }) (tick l)
            row refl
            (own_of r (in_state-is_owning r.state State.launching (ground (arith, launching)))) in
        subst (Keeps l) (ap (λ p. p.1) (ok-injective done)) (
          Calm-Keeps
            (Calm-trans (Calm-trans (tick-Calm l) saved)
              (event-Calm w id (Notice.admitted r.epoch) _))
            v))
      e

-- The loop of `cancel`: a waiting stage owned nothing, and a stage that owns its allocation keeps
-- it.
cancel_stage-Calm : (w : World) (s : Stage) (l : Ledger) → Agrees l s → Calm l (cancel_stage w s l)
unfolding cancel_stage
cancel_stage-Calm w s l (r, row, mine) = elim (Bool-cases (in_state State.waiting s)) [
  | inl waits ↦ rw waits (
      Calm-trans (tick-Calm l) (
        save-Calm w _ (tick l)
          (r, row, mine ∙ own_none s (in_state-is_owning s.state State.waiting waits))))
  | inr past ↦ rw past (elim (Bool-cases (is_owning s.state)) [
    | inl owning ↦ rw owning (save-Calm w _ l (r, row, mine))
    | inr over ↦ rw over (save-Calm w s l (r, row, mine))
  ])
]
  where
    own_none : (s : Stage) → is_owning s.state ≡ false → own s ≡ []
    own_none s e = rw e

cancel_stages-Calm :
    (w : World) (ss : List Stage) (l : Ledger) → All (Agrees l) ss → Calm l (cancel_stages w ss l)
unfolding cancel_stages
cancel_stages-Calm w [] l h = Calm-self l
cancel_stages-Calm w (s ∷ ss) l (h, hs) =
    let first = cancel_stage-Calm w s l h in
    Calm-trans first (cancel_stages-Calm w ss (cancel_stage w s l) (All-Agrees-Calm first ss hs))
  where
    All-Agrees-Calm :
        {l m : Ledger} → Calm l m → (xs : List Stage) → All (Agrees l) xs → All (Agrees m) xs
    All-Agrees-Calm c [] h = tt
    All-Agrees-Calm c (x ∷ xs) (row, h) = (c.owns x.id (own x) row, All-Agrees-Calm c xs h)

-- The rows of a sound ledger agree with it.
rows-Agrees :
    (l : Ledger) (rows : Dict Stage)
    → All (λ e. e.1.id ≡ e.0) rows
    → All (λ e. lookup e.0 l.stages ≡ some e.1) rows
    → All (Agrees l) (values rows)
unfolding values
rows-Agrees l [] k h = tt
rows-Agrees l ((id, s) ∷ rows) (e, k) (at, h) =
    ((s, subst (λ x. lookup x l.stages ≡ some s) (sym e) at, refl), rows-Agrees l rows k h)

-- `cancel` keeps a sound ledger sound over the same registry: the stages that wait end, and those
-- that own an allocation still own it.
pub cancel-IsSound :
    (w : World) (request : String) (l m : Ledger)
    → IsSound l
    → cancel w request l ≡ ok m
    → Keeps l m
unfolding cancel stages_of
cancel-IsSound w request l m v e =
    let (_, _, rest) = >>=-eq-ok (find_request request l) _ e in
    let looped = cancel_stages-Calm w (stages_of request l) l (
      All-filter (Agrees l) _ (values l.stages)
        (rows-Agrees l l.stages v.keyed (IsDict-lookup l.stages v.dict))) in
    Calm-Keeps
      (Calm-trans (Calm-trans looped (event-Calm w request Notice.cancel_requested _))
        (outcomes-Calm w (request ∷ []) _ m rest))
      v
