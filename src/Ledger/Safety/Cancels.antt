-- ===== src/Ledger/Safety/Cancels.antt =====
-- What `cancel` leaves of the stages of its request.
use orchestrator_engine.Prelude.{
  String, ◌≡◌, refl, sym, ap, subst, ◌∙◌, ◌⊎◌, inl, inr, Bool, true, false, ◌||◌, none, some, List,
  [], ◌∷◌, arith, Bool-cases, All, any, filter, Dict, IsDict-lookup, lookup, ◌==◌, test_self,
  eq_of_test, eq_of_some, if◌then◌else◌,
}
use orchestrator_engine.Result.{ok, >>=-eq-ok}
use orchestrator_engine.Ledger.State.{State, is_owning, Stage, World, Ledger, values}
use orchestrator_engine.Ledger.Save.{now, tick, event, find_request, save}
use orchestrator_engine.Ledger.Held.{save-allocation}
use orchestrator_engine.Ledger.Outcomes.{in_state, stages_of}
use orchestrator_engine.Ledger.Operations.{cancel_stage, cancel_stages, cancel}
use orchestrator_engine.Ledger.Once.{save-state, saved_row, outcomes-stages}
use orchestrator_engine.Ledger.Invariant.{IsSound}
use orchestrator_engine.Ledger.Safety.Schedule.{All-filter}
use orchestrator_engine.Ledger.Forward.Rounds.{Untouched, save-Untouched}

-- A stage that waited has ended; another one keeps its state and what it holds, and where it owns
-- its allocation, is asked to end.
abbrev pub IsCancelled : (before after : Stage) → Type 0
IsCancelled s t =
    ((in_state State.waiting s ≡ true) × (t.state ≡ State.cancelled))
    ⊎ ((in_state State.waiting s ≡ false)
        × (t.state ≡ s.state)
        × (t.allocation ≡ s.allocation)
        × (t.cancel_requested ≡ (if is_owning s.state then true else s.cancel_requested)))

module _ (w : World) where
  save-cancel_requested :
      (s : Stage) (l : Ledger) → (save w s l).0.cancel_requested ≡ s.cancel_requested
  unfolding save
  save-cancel_requested s l = ground arith

  abbrev Left : Stage → Ledger → Type 0
  Left s l = (t : Stage) × (lookup s.id l.stages ≡ some t) × IsCancelled s t

  cancel_stage-Left : (s : Stage) (l : Ledger) → Left s (cancel_stage w s l)
  unfolding cancel_stage
  cancel_stage-Left s l = elim (Bool-cases (in_state State.waiting s)) [
    | inl waits ↦
        let t = record s {
          state = State.cancelled;
          finished_at = some (now w l);
          protection = none;
        } in
        rw waits
          ((save w t (tick l)).0, saved_row w t (tick l), inl (refl, save-state w t (tick l)))
    | inr begun ↦ elim (Bool-cases (is_owning s.state)) [
      | inl owns ↦
          let t = record s { cancel_requested = true } in
          rw (begun, owns)
            (
              (save w t l).0,
              saved_row w t l,
              inr (refl, save-state w t l, save-allocation w t l, save-cancel_requested t l),
            )
      | inr over ↦
          rw (begun, over)
            (
              (save w s l).0,
              saved_row w s l,
              inr (refl, save-state w s l, save-allocation w s l, save-cancel_requested s l),
            )
    ]
  ]

  cancel_stage-Untouched :
      (id : String) (s : Stage) (l : Ledger)
      → (s.id == id) ≡ false
      → Untouched w id l (cancel_stage w s l)
  unfolding cancel_stage
  cancel_stage-Untouched id s l apart = elim (Bool-cases (in_state State.waiting s)) [
    | inl waits ↦ rw waits (save-Untouched w id _ (tick l) apart)
    | inr begun ↦ elim (Bool-cases (is_owning s.state)) [
      | inl owns ↦ rw (begun, owns) (save-Untouched w id _ l apart)
      | inr over ↦ rw (begun, over) (save-Untouched w id s l apart)
    ]
  ]

  -- The stage is still to come, or its row is done.
  cancel_stages-Left :
      (s : Stage) (ss : List Stage) (l : Ledger)
      → All (λ t. (t.id == s.id) ≡ true → t ≡ s) ss
      → (any (λ t. t.id == s.id) ss ≡ true) ⊎ Left s l
      → Left s (cancel_stages w ss l)
  unfolding cancel_stages
  cancel_stages-Left s [] l one (inl there) = cc
  cancel_stages-Left s [] l one (inr left) = left
  cancel_stages-Left s (t ∷ ss) l (p, one) h =
      cancel_stages-Left s ss (cancel_stage w t l) one (elim (Bool-cases (t.id == s.id)) [
        | inl same ↦
            inr (subst (λ x. Left s (cancel_stage w x l)) (sym (p same)) (cancel_stage-Left s l))
        | inr other ↦ passed other h
      ])
    where
      passed :
          (t.id == s.id) ≡ false
          → (any (λ x. x.id == s.id) (t ∷ ss) ≡ true) ⊎ Left s l
          → (any (λ x. x.id == s.id) ss ≡ true) ⊎ Left s (cancel_stage w t l)
      passed other (inl there) = inl (rw other at there)
      passed other (inr (r, row, is)) = inr (r, cancel_stage-Untouched s.id t l other ∙ row, is)

  rows-one :
      (l : Ledger) (s : Stage) (rows : Dict Stage)
      → lookup s.id l.stages ≡ some s
      → All (λ e. e.1.id ≡ e.0) rows
      → All (λ e. lookup e.0 l.stages ≡ some e.1) rows
      → All (λ t. (t.id == s.id) ≡ true → t ≡ s) (values rows)
  unfolding values
  rows-one l s [] there k h = tt
  rows-one l s ((j, t) ∷ rows) there (e, k) (at, h) = (one, rows-one l s rows there k h)
    where
      one : (t.id == s.id) ≡ true → t ≡ s
      one same =
          eq_of_some
            (sym at ∙ ap (λ x. lookup x l.stages) (sym e ∙ eq_of_test t.id s.id same) ∙ there)

  listed :
      (id request : String) (s : Stage) (rows : Dict Stage)
      → lookup id rows ≡ some s
      → s.id ≡ id
      → s.request ≡ request
      → any (λ t. t.id == s.id) (filter (λ t. t.request == request) (values rows)) ≡ true
  unfolding values lookup
  listed id request s [] there named mine = cc
  listed id request s ((j, t) ∷ rows) there named mine = elim (Bool-cases (j == id)) [
    | inl hit ↦
        let one : t ≡ s = eq_of_some (rw hit at there) in
        let asked : (t.request == request) ≡ true =
          ap (λ x. x.request == request) one ∙ ap (λ x. x == request) mine ∙ test_self request in
        rw asked (rw (ap (λ x. x.id == s.id) one ∙ test_self s.id) refl)
    | inr miss ↦ elim (Bool-cases (t.request == request)) [
      | inr other ↦ rw other (listed id request s rows (rw miss at there) named mine)
      | inl asked ↦
          rw asked
            (either (t.id == s.id) _ (listed id request s rows (rw miss at there) named mine))
    ]
  ]
    where
      either : (p q : Bool) → q ≡ true → p || q ≡ true
      either p q h = ground arith

-- A `cancel` that returns ends each stage of its request that waits, and asks each one that owns its
-- allocation to end, with its state and its allocation as they were; those that had ended stay so.
pub cancel-IsCancelled :
    (w : World) (request id : String) (s : Stage) (l m : Ledger)
    → IsSound l
    → lookup id l.stages ≡ some s
    → s.id ≡ id
    → s.request ≡ request
    → cancel w request l ≡ ok m
    → (t : Stage) × (lookup id m.stages ≡ some t) × IsCancelled s t
unfolding cancel stages_of event
cancel-IsCancelled w request id s l m v there named mine e =
    let (r, _, e) = >>=-eq-ok (find_request request l) _ e in
    let here' : lookup s.id l.stages ≡ some s = ap (λ x. lookup x l.stages) named ∙ there in
    let (t, row, is) =
      cancel_stages-Left w s (stages_of request l) l
        (All-filter _ _ (values l.stages)
          (rows-one w l s l.stages here' v.keyed (IsDict-lookup l.stages v.dict)))
        (inl (listed w id request s l.stages there named mine)) in
    (
      t,
      ap (lookup id) (outcomes-stages w (request ∷ []) _ m e)
          ∙ subst (λ x. lookup x (cancel_stages w (stages_of request l) l).stages ≡ some t) named
              row,
      is,
    )
