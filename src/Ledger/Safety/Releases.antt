-- ===== src/Ledger/Safety/Releases.antt =====
-- The operations that take leaves back from a stage.
use orchestrator_engine.Prelude.{
  ℕ, String, ◌≡◌, refl, sym, ap, subst, ◌∙◌, inl, inr, Bool, true, false, not, ◌&&◌, Option, none,
  some, List, [], ◌∷◌, ◌++◌, ◌==◌, eqb, arith, Bool-cases, if◌then◌else◌, lookup, eq_iff, contains,
  keys,
}
use orchestrator_engine.Json.{Json}
use orchestrator_engine.Result.{ok, >>=-eq-ok, ok-injective}
use orchestrator_engine.Resources.Claims.{Claim, Allocation, occupied}
use orchestrator_engine.Resources.Claims.Safety.{LeafIsSafe}
use orchestrator_engine.Ledger.State.{
  State, is_owning, is_terminal, Stage, Notice, World, Ledger, own, held,
}
use orchestrator_engine.Ledger.Save.{now, tick, save}
use orchestrator_engine.Ledger.Held.{save-registry, held-save}
use orchestrator_engine.Ledger.Held.Bags.{
  with_claim, Part, Part-self, Part-append, Part-LeafIsSafe, occupied-append,
}
use orchestrator_engine.Ledger.Outcomes.{in_state}
use orchestrator_engine.Ledger.Operations.{
  without, completed, is_empty, settle, finish, recover, is_quiescent, may_abort, abort_outcome,
  abort_unadmitted, groups_of, is_coupled,
}
use orchestrator_engine.Ledger.Invariant.{
  IsSound, Calm-IsSound, Keeps, Calm-trans, Calm-of_stages, event-Calm, outcomes-Calm, keyed-save,
  IsDict-save,
}
use orchestrator_engine.Ledger.Safety.Operations.{with_stage, after_guard, tick-Calm}

-- What a leaf is left with: nothing where it is released, and its claim where it is not.
pub lookup-without :
    (leaf : String) (released : List String) (a : Allocation)
    → lookup leaf (without released a) ≡ (if contains released leaf then none else lookup leaf a)
unfolding without lookup
lookup-without leaf released [] = ground arith
lookup-without leaf released ((j, c) ∷ a) =
    ground (arith, eq_iff j leaf, lookup-without leaf released a)

-- Fewer claims on each leaf.
abbrev pub Shrinks : List Allocation → List Allocation → Type 0
Shrinks xs ys = (leaf : String) → Part (occupied leaf xs) (occupied leaf ys)

pub Shrinks-none : (ys : List Allocation) → Shrinks [] ys
unfolding occupied
Shrinks-none ys leaf = none_of (occupied leaf ys)
  where
    none_of : (cs : List Claim) → Part [] cs
    none_of [] = Part.nil
    none_of (c ∷ cs) = Part.drop (none_of cs)

shorter :
    (o p : Option Claim) (b : Bool)
    → o ≡ (if b then none else p)
    → Part (with_claim o []) (with_claim p [])
shorter o p false e =
    subst (λ x. Part (with_claim x []) (with_claim p [])) (sym e) (Part-self (with_claim p []))
shorter o none true e = subst (λ x. Part (with_claim x []) []) (sym e) Part.nil
shorter o (some c) true e =
    subst (λ x. Part (with_claim x []) (c ∷ [])) (sym e) (Part.drop Part.nil)

Shrinks-without :
    (released : List String) (a : Allocation) → Shrinks (without released a ∷ []) (a ∷ [])
unfolding occupied
Shrinks-without released a leaf =
    shorter (lookup leaf (without released a)) (lookup leaf a) (contains released leaf)
      (lookup-without leaf released a)

-- One part of a list of allocations is replaced by a shorter one.
Shrinks-inside :
    (xs us vs ys : List Allocation) → Shrinks us vs → Shrinks (xs ++ (us ++ ys)) (xs ++ (vs ++ ys))
Shrinks-inside xs us vs ys less leaf =
    rw
      (
        occupied-append leaf xs (us ++ ys),
        occupied-append leaf us ys,
        occupied-append leaf xs (vs ++ ys),
        occupied-append leaf vs ys,
      )
      (Part-append (Part-self (occupied leaf xs))
        (Part-append (less leaf) (Part-self (occupied leaf ys))))

-- Saving a stage that owns less than its row.
pub shrunk-IsSound :
    (w : World) (s t : Stage) (l : Ledger)
    → IsSound l
    → lookup t.id l.stages ≡ some s
    → Shrinks (own t) (own s)
    → IsSound (save w t l).1
shrunk-IsSound w s t l v row less =
    let (before, after, old, new) = held-save w t l s row in
    record {
      keyed = keyed-save w t l v.keyed;
      dict = IsDict-save w t l v.dict;
      safe = λ leaf.
          let part = Shrinks-inside before (own t) (own s) after less leaf in
          subst (λ reg. LeafIsSafe (lookup leaf reg) (occupied leaf (held (save w t l).1)))
            (sym (save-registry w t l))
            (subst (λ xs. LeafIsSafe (lookup leaf l.registry) (occupied leaf xs)) (sym new)
              (Part-LeafIsSafe (lookup leaf l.registry) part (
                subst (λ xs. LeafIsSafe (lookup leaf l.registry) (occupied leaf xs)) old
                  (v.safe leaf))));
    }

-- The stage that a completion leaves owns less than before.
completed-Shrinks :
    (s : Stage) (outcome : State) (released : List String) (evidence : Json) (at : ℕ)
    → is_terminal outcome ≡ true
    → is_owning s.state ≡ true
    → Shrinks (own (completed s outcome released evidence at)) (own s)
unfolding completed
completed-Shrinks s outcome released evidence at over mine =
    elim (Bool-cases (is_empty (without released s.allocation))) [
      | inl gone ↦ rw (gone, terminal-is_owning outcome over) (Shrinks-none (own s))
      | inr left ↦ rw (left, mine) (Shrinks-without released s.allocation)
    ]
  where
    terminal-is_owning : (st : State) → is_terminal st ≡ true → is_owning st ≡ false
    terminal-is_owning st e = ground arith

settle-IsSound :
    (w : World) (id : String) (epoch : ℕ) (outcome : State) (released : List String)
    (evidence : Json) (l m : Ledger)
    → is_terminal outcome ≡ true
    → IsSound l
    → settle w id epoch outcome released evidence l ≡ ok m
    → Keeps l m
unfolding settle completed
settle-IsSound w id epoch outcome released evidence l m over v e =
    with_stage (Keeps l) _ id l m v
      (λ s row rest.
        let (current, rest1) = after_guard (eqb s.epoch epoch && is_owning s.state) _ _ m rest in
        let (_, rest2) = after_guard _ _ _ m rest1 in
        let (groups, _, rest3) = >>=-eq-ok (groups_of l.registry released) _ rest2 in
        let (coupled, _, rest4) =
          >>=-eq-ok (is_coupled l.registry released groups (keys s.allocation)) _ rest3 in
        let (_, rest5) = after_guard (not coupled) _ _ m rest4 in
        let saved =
          shrunk-IsSound w s (completed s outcome released evidence (now w l)) (tick l)
            (Calm-IsSound (tick-Calm l) v) row
            (completed-Shrinks s outcome released evidence (now w l) over
              (ground (arith, current))) in
        let told =
          Calm-trans
            (Calm-trans (Calm-of_stages _ _ refl refl)
              (event-Calm w id (Notice.finished outcome released evidence) _))
            (outcomes-Calm w (s.request ∷ []) _ m rest5) in
        (
          Calm-IsSound told saved,
          told.registry
              ∙ save-registry w (completed s outcome released evidence (now w l)) (tick l),
        ))
      e

-- A completion that `finish` accepts keeps the ledger sound over the same registry, whether it
-- releases every leaf of the stage or leaves some of them to recovery.
pub finish-IsSound :
    (w : World) (id : String) (epoch : ℕ) (outcome : State) (released : List String)
    (evidence : Json) (l m : Ledger)
    → IsSound l
    → finish w id epoch outcome released evidence l ≡ ok m
    → Keeps l m
unfolding finish
finish-IsSound w id epoch outcome released evidence l m v e =
    let (over, rest) = after_guard (is_terminal outcome) _ _ m e in
    settle-IsSound w id epoch outcome released evidence l m over v rest

pub recover-IsSound :
    (w : World) (id : String) (epoch : ℕ) (released : List String) (evidence : Json) (l m : Ledger)
    → IsSound l
    → recover w id epoch released evidence l ≡ ok m
    → Keeps l m
unfolding recover
recover-IsSound w id epoch released evidence l m v e =
    with_stage (Keeps l) _ id l m v
      (λ s row rest.
        let (_, done) =
          after_guard (in_state State.recovery_required s && is_quiescent evidence) _ _ m rest in
        finish-IsSound w id epoch _ released evidence l m v done)
      e

pub abort-is_terminal : (token : Option String) → is_terminal (abort_outcome token) ≡ true
unfolding abort_outcome
abort-is_terminal none = refl
abort-is_terminal (some token) = elim (Bool-cases (token == "")) [
  | inl blank ↦ rw blank refl
  | inr given ↦ rw given refl
]

pub abort_unadmitted-IsSound :
    (w : World) (id : String) (epoch : ℕ) (token : Option String) (identity : Json) (b : Bool)
    (l m : Ledger)
    → IsSound l
    → abort_unadmitted w id epoch token identity l ≡ ok (b, m)
    → Keeps l m
unfolding abort_unadmitted
abort_unadmitted-IsSound w id epoch token identity b l m v e =
    with_stage (λ p. Keeps l p.1) _ id l (b, m) v
      (λ s row rest.
        elim (Bool-cases
          (in_state State.launching s && eqb s.epoch epoch && may_abort s token identity)) [
            | inl may ↦
                let (l', settled, done) =
                  >>=-eq-ok (settle w id epoch (abort_outcome token) (keys s.allocation) _ l) _
                    (rw may at rest) in
                subst (Keeps l) (ap (λ p. p.1) (ok-injective done)) (
                  settle-IsSound w id epoch (abort_outcome token) (keys s.allocation) _ l l'
                    (abort-is_terminal token) v settled)
            | inr not_now ↦
                subst (Keeps l) (ap (λ p. p.1) (ok-injective (rw not_now at rest))) (v, refl)
          ])
      e
