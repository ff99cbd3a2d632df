-- ===== src/Ledger/Safety/Quarantine.antt =====
-- What a completion leaves of its stage.
use orchestrator_engine.Prelude.{
  ℕ, String, ◌≡◌, refl, sym, ap, subst, ◌∙◌, inl, inr, Bool, true, false, not, ◌&&◌, none, some,
  List, [], ◌∷◌, arith, eqb, Bool-cases, lookup, keys, all, any, contains, ◌==◌, eq_of_test,
  if◌then◌else◌,
}
use orchestrator_engine.Json
use orchestrator_engine.Json.{Json}
use orchestrator_engine.Result.{ok, >>=-eq-ok, eq_of_ok}
use orchestrator_engine.Resources.Registry.{Registry, truthy}
use orchestrator_engine.Ledger.State.{State, is_terminal, is_owning, Stage, World, Ledger}
use orchestrator_engine.Ledger.Save.{now, tick, find_stage, save}
use orchestrator_engine.Ledger.Held.{save-allocation}
use orchestrator_engine.Ledger.Operations.{
  group_of, groups_of, is_coupled, without, is_empty, completed, settle, finish,
}
use orchestrator_engine.Ledger.Once.{save-state, settle-row}
use orchestrator_engine.Ledger.Invariant.{IsSound}
use orchestrator_engine.Ledger.Safety.Operations.{find_stage-id, after_guard}
use orchestrator_engine.Ledger.Safety.Releases.{lookup-without}

all-contains :
    (owned released : List String) (leaf : String)
    → all (contains owned) released ≡ true
    → contains released leaf ≡ true
    → contains owned leaf ≡ true
all-contains owned [] leaf h there = cc
all-contains owned (x ∷ xs) leaf h there = elim (Bool-cases (x == leaf)) [
  | inl same ↦ subst (λ y. contains owned y ≡ true) (eq_of_test x leaf same) (ground arith)
  | inr other ↦ all-contains owned xs leaf (ground arith) (rw other at there)
]

group-any :
    (reg : Registry) (released : List String) (groups : List Json) (a : String) (g h : Json)
    → groups_of reg released ≡ ok groups
    → contains released a ≡ true
    → group_of reg a ≡ ok g
    → Json.eq g h ≡ true
    → any (λ k. Json.eq k h) groups ≡ true
unfolding groups_of
group-any reg [] groups a g h e there named same = cc
group-any reg (x ∷ xs) groups a g h e there named same =
    let (k, first, e) = >>=-eq-ok (group_of reg x) _ e in
    let (ks, rest, e) = >>=-eq-ok (groups_of reg xs) _ e in
    subst (λ y. any (λ k. Json.eq k h) y ≡ true) (eq_of_ok e)
      (elim (Bool-cases (x == a)) [
        | inl hit ↦
            let one : k ≡ g =
              eq_of_ok (sym first ∙ ap (group_of reg) (eq_of_test x a hit) ∙ named) in
            rw (subst (λ y. Json.eq y h ≡ true) (sym one) same) refl
        | inr miss ↦ ground (arith, group-any reg xs ks a g h rest (rw miss at there) named same)
      ])

-- Where no leaf is coupled, the leaves of a released leaf's group are released too.
uncoupled :
    (reg : Registry) (released : List String) (groups : List Json) (owned : List String)
    (b : String) (h : Json)
    → is_coupled reg released groups owned ≡ ok false
    → contains owned b ≡ true
    → group_of reg b ≡ ok h
    → any (λ k. Json.eq k h) groups ≡ true
    → truthy h ≡ true
    → contains released b ≡ true
unfolding is_coupled
uncoupled reg released groups [] b h e there named met grouped = cc
uncoupled reg released groups (x ∷ xs) b h e there named met grouped =
    let (g, first, e) = >>=-eq-ok (group_of reg x) _ e in
    elim (Bool-cases (any (λ k. Json.eq k g) groups && truthy g && not (contains released x))) [
      | inl stays ↦ let refuted = rw stays at e in cc
      | inr goes ↦ elim (Bool-cases (x == b)) [
        | inr other ↦
            uncoupled reg released groups xs b h (rw goes at e) (rw other at there) named met
              grouped
        | inl same ↦
            let one : g ≡ h =
              eq_of_ok (sym first ∙ ap (group_of reg) (eq_of_test x b same) ∙ named) in
            subst (λ y. contains released y ≡ true) (eq_of_test x b same)
              (released_too (any (λ k. Json.eq k g) groups) (truthy g) (contains released x)
                (subst (λ y. any (λ k. Json.eq k y) groups ≡ true) (sym one) met)
                (ap truthy one ∙ grouped) goes)
      ]
    ]
  where
    released_too : (p q r : Bool) → p ≡ true → q ≡ true → p && q && not r ≡ false → r ≡ true
    released_too p q r hp hq h = ground arith

completed-allocation :
    (s : Stage) (o : State) (released : List String) (evidence : Json) (at : ℕ)
    → (completed s o released evidence at).allocation ≡ without released s.allocation
unfolding completed
completed-allocation s o released evidence at = refl

completed-quarantine :
    (s : Stage) (o : State) (released : List String) (evidence : Json) (at : ℕ)
    → (completed s o released evidence at).state
      ≡ (if is_empty (without released s.allocation) then o else State.recovery_required)
unfolding completed
completed-quarantine s o released evidence at = refl

-- The row behind a completion: the leaves that were released are gone and the others stay, under a
-- stage that is quarantined while one does.
pub record IsSettled (reg : Registry) (s t : Stage) (o : State) (released : List String)
    : Type 0 where
  pub owned :
      (leaf : String) → contains released leaf ≡ true → contains (keys s.allocation) leaf ≡ true
  pub leaves :
      (leaf : String)
      → lookup leaf t.allocation
        ≡ (if contains released leaf then none else lookup leaf s.allocation)
  pub state : t.state ≡ (if is_empty t.allocation then o else State.recovery_required)
  pub together :
      (a b : String) (g h : Json)
      → contains released a ≡ true
      → contains (keys s.allocation) b ≡ true
      → group_of reg a ≡ ok g
      → group_of reg b ≡ ok h
      → Json.eq g h ≡ true
      → truthy h ≡ true
      → contains released b ≡ true

-- A completion that `finish` accepts releases only leaves that the stage held, and with a leaf those
-- of its recovery group that the stage held. The row that it leaves holds exactly the other leaves,
-- as before, and is in the reported outcome when none is left and in quarantine otherwise.
pub finish-IsSettled :
    (w : World) (id : String) (epoch : ℕ) (o : State) (released : List String) (evidence : Json)
    (s : Stage) (l m : Ledger)
    → IsSound l
    → find_stage id l ≡ ok s
    → finish w id epoch o released evidence l ≡ ok m
    → (t : Stage) × (lookup id m.stages ≡ some t) × IsSettled l.registry s t o released
unfolding finish settle
finish-IsSettled w id epoch o released evidence s l m v found e =
    let (_, whole) = after_guard (is_terminal o) _ _ m e in
    let row =
      settle-row w id epoch o released evidence s l m (find_stage-id id s l v found) found whole in
    let (_, e) = after_guard (eqb s.epoch epoch && is_owning s.state) _ _ m (rw found at whole) in
    let (inside, e) = after_guard (all (contains (keys s.allocation)) released) _ _ m e in
    let (groups, named, e) = >>=-eq-ok (groups_of l.registry released) _ e in
    let (coupled, judged, e) =
      >>=-eq-ok (is_coupled l.registry released groups (keys s.allocation)) _ e in
    let (apart, _) = after_guard (not coupled) _ _ m e in
    (_, row, settled groups named inside (judged ∙ ap ok (not-false coupled apart)))
  where
    not-false : (b : Bool) → not b ≡ true → b ≡ false
    not-false b h = ground arith

    left : Stage
    left = completed s o released evidence (now w l)

    kept : (save w left (tick l)).0.allocation ≡ without released s.allocation
    kept = save-allocation w left (tick l) ∙ completed-allocation s o released evidence (now w l)

    settled :
        (groups : List Json)
        → groups_of l.registry released ≡ ok groups
        → all (contains (keys s.allocation)) released ≡ true
        → is_coupled l.registry released groups (keys s.allocation) ≡ ok false
        → IsSettled l.registry s (save w left (tick l)).0 o released
    settled groups named inside judged = record {
      owned = λ leaf. all-contains (keys s.allocation) released leaf inside;
      leaves = λ leaf. ap (lookup leaf) kept ∙ lookup-without leaf released s.allocation;
      state =
          save-state w left (tick l)
          ∙ completed-quarantine s o released evidence (now w l)
          ∙ ap (λ a. if is_empty a then o else State.recovery_required) (sym kept);
      together = λ a b g h there held_b ga gb same grouped.
          uncoupled l.registry released groups (keys s.allocation) b h judged held_b gb
            (group-any l.registry released groups a g h named there ga same) grouped;
    }
