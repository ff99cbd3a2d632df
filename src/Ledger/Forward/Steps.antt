-- ===== src/Ledger/Forward/Steps.antt =====
-- What each transaction leaves of a stage that has gone past its launch, or has ended.
use orchestrator_engine.Prelude.{
  ℕ, String, ◌≡◌, refl, sym, ap, subst, ◌∙◌, inl, inr, Bool, true, false, not, ◌&&◌, some, List, [],
  ◌∷◌, ◌==◌, All, Bool-cases, Dict, lookup, eq_of_test, eq_of_some, eqb, all, contains, keys,
}
use orchestrator_engine.Json.{Json}
use orchestrator_engine.Result.{ok, >>=-eq-ok}
use orchestrator_engine.Ledger.State.{
  State, is_terminal, is_owning, same_state, Stage, World, Ledger, values,
}
use orchestrator_engine.Ledger.Save.{now, tick, event, find_stage, save}
use orchestrator_engine.Ledger.Outcomes.{in_state}
use orchestrator_engine.Ledger.Operations.{
  cancel_stage, cancel_stages, completed, settle, is_empty, without, groups_of, is_coupled,
}
use orchestrator_engine.Ledger.Once.{save-state, saved_row, outcomes-stages}
use orchestrator_engine.Ledger.Invariant.{IsSound}
use orchestrator_engine.Ledger.Safety.Operations.{find_stage-row, after_guard}
use orchestrator_engine.Ledger.Forward.Rounds.{Untouched, save-Untouched}

-- A set of states that only a finished or quarantined stage comes to from itself.
pub record IsClosed (P : State → Bool) : Type 0 where
  pub waits : P State.waiting ≡ false
  pub grants : P State.granted ≡ false
  pub launches : P State.launching ≡ false
  pub ends : (st : State) → is_terminal st ≡ true → P st ≡ true
  pub quarantines :
      (st : State) → P st ≡ true → is_owning st ≡ true → P State.recovery_required ≡ true

pub and-left : (a b : Bool) → a && b ≡ true → a ≡ true
and-left true b e = refl
and-left false b e = cc

and-right : (a b : Bool) → a && b ≡ true → b ≡ true
and-right true b e = e
and-right false b e = cc

module _ (w : World) (id : String) (P : State → Bool) where
  -- The row of the stage is there, in a state of the set.
  abbrev pub Holds : Ledger → Type 0
  Holds l = (s : Stage) × (lookup id l.stages ≡ some s) × (P s.state ≡ true)

  pub Untouched-Holds : (l m : Ledger) → Untouched w id l m → Holds l → Holds m
  Untouched-Holds l m same (s, there, p) = (s, same ∙ there, p)

  pub stages-Holds : (l m : Ledger) → m.stages ≡ l.stages → Holds l → Holds m
  stages-Holds l m same h = Untouched-Holds l m (ap (lookup id) same) h

  -- A row that is saved, in the set where it is this row.
  pub save-Holds :
      (t : Stage) (l : Ledger)
      → ((t.id == id) ≡ true → P t.state ≡ true)
      → Holds l
      → Holds (save w t l).1
  save-Holds t l stays h = elim (Bool-cases (t.id == id)) [
    | inr other ↦ Untouched-Holds l (save w t l).1 (save-Untouched w id t l other) h
    | inl same ↦ (
      (save w t l).0,
      subst (λ x. lookup x (save w t l).1.stages ≡ some (save w t l).0) (eq_of_test t.id id same)
          (saved_row w t l),
      ap P (save-state w t l) ∙ stays same,
    )
  ]

  -- Where the row was in the set, so was the stage that stood under its identifier.
  pub row-in :
      (s : Stage) (l : Ledger)
      → lookup s.id l.stages ≡ some s
      → Holds l
      → (s.id == id) ≡ true
      → P s.state ≡ true
  row-in s l row (t, there, p) same =
      let there' = ap (λ x. lookup x l.stages) (sym (eq_of_test s.id id same)) in
      let one : t ≡ s = eq_of_some (sym there ∙ there' ∙ row) in ap (λ x. P x.state) (sym one) ∙ p

is_waiting : (st : State) → same_state st State.waiting ≡ true → st ≡ State.waiting
unfolding same_state
is_waiting State.waiting e = refl
is_waiting _ e = cc

is_granted : (st : State) → same_state st State.granted ≡ true → st ≡ State.granted
unfolding same_state
is_granted State.granted e = refl
is_granted _ e = cc

is_launching : (st : State) → same_state st State.launching ≡ true → st ≡ State.launching
unfolding same_state
is_launching State.launching e = refl
is_launching _ e = cc

module _ (w : World) (id : String) (P : State → Bool) (c : IsClosed P) where
  -- The loop of `cancel`, over stages that are in the set where they are this one.
  cancel_stage-Holds :
      (s : Stage) (l : Ledger)
      → ((s.id == id) ≡ true → P s.state ≡ true)
      → Holds w id P l
      → Holds w id P (cancel_stage w s l)
  unfolding cancel_stage
  cancel_stage-Holds s l stays h = elim (Bool-cases (in_state State.waiting s)) [
    | inl waits ↦ rw waits (save-Holds w id P _ (tick l) (λ same. c.ends State.cancelled refl) h)
    | inr begun ↦ elim (Bool-cases (is_owning s.state)) [
      | inl owns ↦ rw (begun, owns) (save-Holds w id P _ l stays h)
      | inr over ↦ rw (begun, over) (save-Holds w id P s l stays h)
    ]
  ]

  pub cancel_stages-Holds :
      (ss : List Stage) (l : Ledger)
      → All (λ s. (s.id == id) ≡ true → P s.state ≡ true) ss
      → Holds w id P l
      → Holds w id P (cancel_stages w ss l)
  unfolding cancel_stages
  cancel_stages-Holds [] l stays h = h
  cancel_stages-Holds (s ∷ ss) l (p, ps) h =
      cancel_stages-Holds ss (cancel_stage w s l) ps (cancel_stage-Holds s l p h)

  pub rows-in :
      (l : Ledger) (rows : Dict Stage)
      → Holds w id P l
      → All (λ e. e.1.id ≡ e.0) rows
      → All (λ e. lookup e.0 l.stages ≡ some e.1) rows
      → All (λ s. (s.id == id) ≡ true → P s.state ≡ true) (values rows)
  unfolding values
  rows-in l [] h k at = tt
  rows-in l ((j, s) ∷ rows) h (e, k) (there, at) = (
    row-in w id P s l (subst (λ x. lookup x l.stages ≡ some s) (sym e) there) h,
    rows-in l rows h k at,
  )

  completed-P :
      (s : Stage) (o : State) (released : List String) (evidence : Json) (at : ℕ)
      → is_terminal o ≡ true
      → is_owning s.state ≡ true
      → P s.state ≡ true
      → P (completed s o released evidence at).state ≡ true
  unfolding completed
  completed-P s o released evidence at over owns p =
      elim (Bool-cases (is_empty (without released s.allocation))) [
        | inl all_out ↦ rw all_out (c.ends o over)
        | inr left ↦ rw left (c.quarantines s.state p owns)
      ]

  completed_id :
      (s : Stage) (o : State) (released : List String) (evidence : Json) (at : ℕ)
      → ((completed s o released evidence at).id == id) ≡ true
      → (s.id == id) ≡ true
  unfolding completed
  completed_id s o released evidence at e = e

  -- A completion.
  pub settle-Holds :
      (of : String) (epoch : ℕ) (o : State) (released : List String) (evidence : Json)
      (l m : Ledger)
      → IsSound l
      → is_terminal o ≡ true
      → Holds w id P l
      → settle w of epoch o released evidence l ≡ ok m
      → Holds w id P m
  unfolding settle event
  settle-Holds of epoch o released evidence l m v over h e =
      let (s, found, e) = >>=-eq-ok (find_stage of l) _ e in
      let (owned_now, e) = after_guard (eqb s.epoch epoch && is_owning s.state) _ _ m e in
      let (_, e) = after_guard (all (contains (keys s.allocation)) released) _ _ m e in
      let (groups, _, e) = >>=-eq-ok (groups_of l.registry released) _ e in
      let (coupled, _, e) =
        >>=-eq-ok (is_coupled l.registry released groups (keys s.allocation)) _ e in
      let (_, e) = after_guard (not coupled) _ _ m e in
      let t = completed s o released evidence (now w l) in
      stages-Holds w id P (save w t (tick l)).1 m (outcomes-stages w (s.request ∷ []) _ m e) (
        save-Holds w id P t (tick l)
          (λ same. completed-P s o released evidence (now w l) over (and-right _ _ owned_now) (
            row-in w id P s l (find_stage-row of s l v found) h
              (completed_id s o released evidence (now w l) same)))
          h)

  -- A change of one row, where the stage that stands there keeps its identifier.
  pub changed-Holds :
      (of : String) (s t : Stage) (l k : Ledger)
      → IsSound l
      → find_stage of l ≡ ok s
      → k.stages ≡ l.stages
      → t.id ≡ s.id
      → (P s.state ≡ true → P t.state ≡ true)
      → Holds w id P l
      → Holds w id P (save w t k).1
  changed-Holds of s t l k v found rows named stays h =
      save-Holds w id P t k
        (λ same. stays (
          row-in w id P s l (find_stage-row of s l v found) h
            (ap (λ x. x == id) (sym named) ∙ same)))
        (stages-Holds w id P l k rows h)

  pub not_granted : (s : Stage) → in_state State.granted s ≡ true → P s.state ≡ true → ⊥
  not_granted s e p = cc (c.grants, ap P (is_granted s.state e), p)

  pub not_launching : (s : Stage) → in_state State.launching s ≡ true → P s.state ≡ true → ⊥
  not_launching s e p = cc (c.launches, ap P (is_launching s.state e), p)

  pub not_waiting : (s : Stage) → P s.state ≡ true → in_state State.waiting s ≡ false
  not_waiting s p = elim (Bool-cases (in_state State.waiting s)) [
    | inl waits ↦ absurd (cc (c.waits, ap P (is_waiting s.state waits), p))
    | inr begun ↦ begun
  ]
