-- ===== src/Resources/Assignments/Admissible.antt =====
-- What every allocation found by `assignments` satisfies, whatever the alternatives are.
use orchestrator_engine.Prelude.{
  ℕ, zero, suc, subst, ap, ◌∙◌, eq_of_test, eq_of_some, if◌then◌else◌, ◌≤◌, String, ◌≡◌, refl, sym,
  ◌⊎◌, inl, inr, Bool, true, false, Option, none, some, List, [], ◌∷◌, arith, ◌==◌, All, lookup,
  put, Option-cases, Bool-cases, IsDict, put-IsDict, lookup-put,
}
use orchestrator_engine.Json
use orchestrator_engine.Json.{Json, ℤ}
use orchestrator_engine.Result.{
  ok, or_raise, bad_need, unknown_or_cyclic, ok-injective, >>=-eq-ok, >>=-eq-some, stop, raising,
  Gen, Yields, each-Yields, raising-Yields, any-Yields, traverse-All,
}
use orchestrator_engine.Resources.Registry.{Registry, Entry, Leaf, identifier, positive}
use orchestrator_engine.Resources.Claims.{Mode, Claim, Allocation, capacity_of, compatible}
use orchestrator_engine.Resources.Claims.Safety.{IsClaim, IsPlaced}
use orchestrator_engine.Resources.Demands.{Demand, claim_of, demand, demands, mode_of, check_group}
use orchestrator_engine.Resources.Selectors.{selector_leaves}
use orchestrator_engine.Resources.Alternatives.{depth}
use orchestrator_engine.Resources.Assignments.{
  Scope, Step, plan_steps, hopeless, options, merge, place_leaf, place, extend, search, assignments,
}

-- What admission needs of an allocation.
abbrev pub IsAdmissible : Scope → Allocation → Type 0
IsAdmissible sc a =
    IsDict a × IsPlaced sc.registry a × (compatible sc.registry a sc.others ≡ ok true)

abbrev IsWellPlaced : Registry → Allocation → Type 0
IsWellPlaced reg a = IsDict a × IsPlaced reg a

positive-le : (v : Json) {n : ℕ} → positive v ≡ ok n → 1 ≤ n
unfolding positive
positive-le (Json.num (ℤ.pos zero)) e = cc
positive-le (Json.num (ℤ.pos (suc n))) e = ground arith
positive-le v e = cc

check_group-cases :
    (m : Mode) (g : Json) (units : ℕ) {u : Unit}
    → check_group m g units ≡ ok u
    → (m ≡ Mode.exclusive) ⊎ (m ≡ Mode.shared) × ((s : String) × (g ≡ Json.str s))
unfolding check_group identifier
check_group-cases Mode.exclusive g units e = inl refl
check_group-cases Mode.shared (Json.str s) units e = inr (refl, (s, refl))
check_group-cases Mode.shared g units e = cc

demand-IsClaim :
    (reg : Registry) (v : Json) (d : Demand) → demand reg v ≡ ok d → IsClaim (claim_of d)
unfolding demand
demand-IsClaim reg (Json.obj need) d e =
    let (raw, _, e1) = >>=-eq-ok (or_raise bad_need (Json.get "resource" need)) _ e in
    let (name, _, e2) = >>=-eq-ok (identifier raw) _ e1 in
    let (mode, _, e3) = >>=-eq-ok (mode_of (Json.get_or "mode" (Json.str "exclusive") need)) _ e2 in
    let (units, p, e4) =
      >>=-eq-ok (positive (Json.get_or "units" (Json.num (ℤ.pos 1)) need)) _ e3 in
    let group = Json.get_or "compatibility" Json.null need in
    let (_, c, e5) = >>=-eq-ok (check_group mode group units) _ e4 in
    let (_, _, e6) = >>=-eq-ok (or_raise unknown_or_cyclic (lookup name reg)) _ e5 in
    let same = ok-injective e6 in
    subst (λ t. IsClaim (claim_of t)) same (positive-le _ p, check_group-cases mode group units c)
demand-IsClaim reg v d e = cc

merge-IsClaim :
    (d : Demand) (old : Option Claim) {c : Claim}
    → IsClaim (claim_of d)
    → merge d old ≡ some c
    → IsClaim c
unfolding merge
merge-IsClaim d none w e = ground arith
merge-IsClaim d (some old) w e = ground arith

capacity_of-cases :
    (o : Option Entry) {n : ℕ}
    → capacity_of o ≡ ok n
    → (l : Leaf) × (o ≡ some (Entry.resource l)) × (l.capacity ≡ n)
capacity_of-cases none e = cc
capacity_of-cases (some (Entry.resource l)) e = (l, refl, ok-injective e)
capacity_of-cases (some (Entry.selector k ms fs)) e = cc

-- A leaf that is placed: the entry, the merged claim and the new allocation.
pub place_leaf-cases :
    (reg : Registry) (d : Demand) (a : Allocation) (leaf : String) (b : Allocation)
    → place_leaf reg d a leaf ≡ ok (some b)
    → (c : Claim) × (l : Leaf) × (merge d (lookup leaf a) ≡ some c)
      × (lookup leaf reg ≡ some (Entry.resource l))
      × (c.units ≤ l.capacity)
      × (b ≡ put leaf c a)
unfolding place_leaf
place_leaf-cases reg d a leaf b e = elim (Option-cases (merge d (lookup leaf a))) [
  | inl out ↦ absurd (ground arith)
  | inr (c, merged) ↦
      let (n, cap, e') =
        >>=-eq-ok (capacity_of (lookup leaf reg)) _ (rw (merged, place_leaf) at e) in
      let (l, known, same) = capacity_of-cases (lookup leaf reg) cap in
      (c, l, merged, known, ground arith, ground arith)
]

place_leaf-IsWellPlaced :
    (reg : Registry) (d : Demand) (a : Allocation) (leaf : String) (b : Allocation)
    → IsClaim (claim_of d)
    → IsWellPlaced reg a
    → place_leaf reg d a leaf ≡ ok (some b)
    → IsWellPlaced reg b
place_leaf-IsWellPlaced reg d a leaf b w (dict, placed) e =
    let (c, l, merged, known, _, same) = place_leaf-cases reg d a leaf b e in
    subst (IsWellPlaced reg) (sym same) (
      put-IsDict leaf c a dict,
      λ j x at. elim (Bool-cases (leaf == j)) [
        | inl hit ↦
            let here : some c ≡ some x = sym (lookup-put leaf j c a ∙ rw hit) ∙ at in
            (
              (l, rw (← eq_of_test leaf j hit) known),
              subst IsClaim (eq_of_some here) (merge-IsClaim d (lookup leaf a) w merged),
            )
        | inr miss ↦ placed j x (sym (lookup-put leaf j c a ∙ rw miss) ∙ at)
      ],
    )

place-IsWellPlaced :
    (reg : Registry) (d : Demand) (leaves : List String) (a b : Allocation)
    → IsClaim (claim_of d)
    → IsWellPlaced reg a
    → place reg d leaves a ≡ ok (some b)
    → IsWellPlaced reg b
unfolding place
place-IsWellPlaced reg d [] a b w p e = subst (IsWellPlaced reg) (some_of e) p
  where
    some_of : place reg d [] a ≡ ok (some b) → a ≡ b
    some_of q = cc
place-IsWellPlaced reg d (leaf ∷ leaves) a b w p e =
    let (a', first, rest) = >>=-eq-some (place_leaf reg d a leaf) (place reg d leaves) e in
    place-IsWellPlaced reg d leaves a' b w (place_leaf-IsWellPlaced reg d a leaf a' w p first) rest

extend-IsAdmissible :
    (sc : Scope) (d : Demand) (leaves : List String) (a b : Allocation)
    → IsClaim (claim_of d)
    → IsWellPlaced sc.registry a
    → extend sc d leaves a ≡ ok (some b)
    → IsAdmissible sc b
unfolding extend
extend-IsAdmissible sc d leaves a b w p e =
    let (a', placed, e') = >>=-eq-some (place sc.registry d leaves a) _ e in
    let (fit, test, e'') = >>=-eq-ok (compatible sc.registry a' sc.others) _ e' in
    let (yes_fit, same) : (fit ≡ true) × (a' ≡ b) = chosen fit e'' in
    let (dict, fine) = place-IsWellPlaced sc.registry d leaves a a' w p placed in
    subst (IsAdmissible sc) same (dict, fine, test ∙ ap ok yes_fit)
  where
    chosen :
        {a' : Allocation} (fit : Bool)
        → ok (if fit then some a' else none) ≡ ok (some b)
        → (fit ≡ true) × (a' ≡ b)
    chosen true e = (refl, eq_of_some (ok-injective e))
    chosen false e = cc

abbrev StepIsClaim : Step → Type 0
StepIsClaim s = IsClaim (claim_of s.demand)

-- The rest of the search, behind one more choice.
extended-IsAdmissible :
    (sc : Scope) (d : Demand) (leaves : List String) (a : Allocation)
    (k : Allocation → Gen Allocation)
    → IsClaim (claim_of d)
    → IsWellPlaced sc.registry a
    → ((b : Allocation) → IsAdmissible sc b → Yields (IsAdmissible sc) (k b))
    → Yields
        (IsAdmissible sc)
        (raising (extend sc d leaves a) (λ o. elim o [ none ↦ stop | some b ↦ k b ]))
extended-IsAdmissible sc d leaves a k w p h =
    raising-Yields (IsAdmissible sc) (extend sc d leaves a) _ found
  where
    found :
        (o : Option Allocation)
        → extend sc d leaves a ≡ ok o
        → Yields (IsAdmissible sc) (elim o [ none ↦ stop | some b ↦ k b ])
    found none e = tt
    found (some b) e = h b (extend-IsAdmissible sc d leaves a b w p e)

search-IsAdmissible :
    (sc : Scope) (steps : List Step) (a : Allocation)
    → All StepIsClaim steps
    → IsAdmissible sc a
    → Yields (IsAdmissible sc) (search sc steps a)
unfolding search
search-IsAdmissible sc [] a w p = elim (Bool-cases (hopeless sc [] a)) [
  | inl out ↦ rw out tt
  | inr on ↦ rw on (p, tt)
]
search-IsAdmissible sc (s ∷ ss) a (w, ws) (dict, placed, fit) =
    elim (Bool-cases (hopeless sc (s ∷ ss) a)) [
      | inl out ↦ rw out tt
      | inr on ↦ rw on (
          each-Yields (λ _. Unit {0}) (IsAdmissible sc) (options sc s.demand) _ (any-Yields _)
            λ leaves _.
              extended-IsAdmissible sc s.demand leaves a (search sc ss) w (dict, placed)
                λ b p. search-IsAdmissible sc ss b ws p)
    ]

plan_steps-IsClaim :
    (reg : Registry) (ds : List Demand) (steps : List Step)
    → All (λ d. IsClaim (claim_of d)) ds
    → plan_steps reg ds ≡ ok steps
    → All StepIsClaim steps
unfolding plan_steps
plan_steps-IsClaim reg [] steps w e = subst (All StepIsClaim) (ok-injective e) tt
plan_steps-IsClaim reg (d ∷ ds) steps (w, ws) e =
    let (later, el, e') = >>=-eq-ok (plan_steps reg ds) _ e in
    let (leaves, _, e'') = >>=-eq-ok (selector_leaves (depth reg) reg d.name []) _ e' in
    subst (All StepIsClaim) (ok-injective e'') (w, plan_steps-IsClaim reg ds later ws el)

demands-IsClaim :
    (reg : Registry) (needs : Json) (ds : List Demand)
    → demands reg needs ≡ ok ds
    → All (λ d. IsClaim (claim_of d)) ds
unfolding demands
demands-IsClaim reg (Json.arr vs) ds e =
    traverse-All (λ _. Unit {0}) (λ d. IsClaim (claim_of d)) (demand reg) (Json.to_list vs)
      (demand-IsClaim reg) e
demands-IsClaim reg needs ds e = cc

-- Every allocation that the search yields names each leaf once, consists of well-formed claims on
-- registered leaves, and is compatible with the allocations given as `others`.
pub assignments-IsAdmissible :
    (sc : Scope) (needs : Json) → Yields (IsAdmissible sc) (assignments sc needs)
unfolding assignments
assignments-IsAdmissible sc needs =
    raising-Yields (IsAdmissible sc) (demands sc.registry needs) _ λ ds ed.
      raising-Yields (IsAdmissible sc) (plan_steps sc.registry ds) _ λ steps es.
        search-IsAdmissible sc steps []
          (plan_steps-IsClaim sc.registry ds steps (demands-IsClaim sc.registry needs ds ed) es)
          (tt, (λ leaf c e. nothing leaf c e), unfold compatible in refl)
  where
    nothing : {V : Type 0} (leaf : String) (c : Claim) → lookup leaf [] ≡ some c → V
    nothing leaf c e = absurd (unfold lookup in (cc))
