-- ===== src/Wait/Targets/Valid.antt =====
-- What validate_targets accepts.
use orchestrator_engine.Prelude.{
  ℕ, suc, ◌≤◌, String, ◌≡◌, refl, ap, subst, ◌∙◌, ◌≢◌, ◌↔◌, inl, inr, true, false, not, List, [],
  ◌∷◌, arith, All, contains, eqb, leb, length, Bool-cases, eq_of_test, test_self, &&-eq-true,
}
use orchestrator_engine.Result.{
  ok, guard, traverse, >>=-eq-ok, guard-eq-ok, no_targets, too_many_targets, repeated_target,
}
use orchestrator_engine.Wait.Targets.{
  Kind, Target, wait_modes, max_wait_targets, same_kind, same_target, is_in, to_set, is_empty,
  parse_target, validate_targets,
}

-- No target comes twice.
abbrev pub IsDistinct : List Target → Type 0
IsDistinct [] = Unit
IsDistinct (t ∷ ts) = All (λ (u : Target). t ≢ u) ts × IsDistinct ts

abbrev target_with : Kind → String → Target
target_with k i = record { kind = k; id = i }

same_kind-eq : (a b : Kind) → same_kind a b ≡ true → a ≡ b
unfolding same_kind
same_kind-eq a b h = ground arith

same_kind_self : (k : Kind) → same_kind k k ≡ true
unfolding same_kind
same_kind_self k = ground arith

same_target-eq : (t u : Target) → same_target t u ≡ true → t ≡ u
unfolding same_target
same_target-eq t u h =
    let (k, i) = &&-eq-true _ _ h in
    ap (λ x. target_with x t.id) (same_kind-eq _ _ k)
    ∙ ap (λ x. target_with u.kind x) (eq_of_test _ _ i)

same_target_self : (t : Target) → same_target t t ≡ true
unfolding same_target
same_target_self t = rw (same_kind_self t.kind, test_self t.id) refl

is_in-All : (t : Target) (us : List Target) → is_in t us ≡ false → All (λ (u : Target). t ≢ u) us
unfolding is_in
is_in-All t [] h = tt
is_in-All t (u ∷ us) h = (
  λ e. cc (subst (λ x. same_target t x ≡ true) e (same_target_self t), first),
  is_in-All t us (ground arith),
)
  where
    first : same_target t u ≡ false
    first = ground arith

All-is_in : (t : Target) (us : List Target) → All (λ (u : Target). t ≢ u) us → is_in t us ≡ false
unfolding is_in
All-is_in t [] h = refl
All-is_in t (u ∷ us) (apart, h) = elim (Bool-cases (same_target t u)) [
  | inl same ↦ absurd (apart (same_target-eq t u same))
  | inr other ↦ rw (other, All-is_in t us h) refl
]

to_set-length : (ts : List Target) → length (to_set ts) ≤ length ts
unfolding to_set
to_set-length [] = omega arith
to_set-length (t ∷ ts) = ground (arith, to_set-length ts)

to_set-IsDistinct : (ts : List Target) → length (to_set ts) ≡ length ts → IsDistinct ts
unfolding to_set
to_set-IsDistinct [] h = tt
to_set-IsDistinct (t ∷ ts) h = elim (Bool-cases (is_in t ts)) [
  | inl repeated ↦ absurd (omega (arith, rw repeated at h, to_set-length ts))
  | inr new ↦ (is_in-All t ts new, to_set-IsDistinct ts (omega (arith, rw new at h)))
]

IsDistinct-to_set : (ts : List Target) → IsDistinct ts → length (to_set ts) ≡ length ts
unfolding to_set
IsDistinct-to_set [] h = refl
IsDistinct-to_set (t ∷ ts) (new, h) = rw (All-is_in t ts new) (ap suc (IsDistinct-to_set ts h))

-- What a set of targets must be.
abbrev pub IsAccepted : List String → (mode : String) → Type 0
IsAccepted targets mode =
    (parsed : List Target) × (traverse parse_target targets ≡ ok parsed)
    × IsDistinct parsed
    × (1 ≤ length targets)
    × (length targets ≤ 64)
    × (contains wait_modes mode ≡ true)

there_is : (xs : List String) → not (is_empty xs) ≡ true → 1 ≤ length xs
unfolding is_empty
there_is [] h = cc
there_is (x ∷ xs) h = omega arith

validate_targets-IsAccepted :
    (targets : List String) (mode : String)
    → validate_targets targets mode ≡ ok tt
    → IsAccepted targets mode
unfolding validate_targets
validate_targets-IsAccepted targets mode e =
    let (u, some_there, e) = >>=-eq-ok (guard (not (is_empty targets)) no_targets) _ e in
    let (u, few, e) =
      >>=-eq-ok (guard (leb (length targets) max_wait_targets) too_many_targets) _ e in
    let (parsed, read, e) = >>=-eq-ok (traverse parse_target targets) _ e in
    let (u, apart, e) =
      >>=-eq-ok (guard (eqb (length (to_set parsed)) (length parsed)) repeated_target) _ e in
    let few = guard-eq-ok _ _ few in
    let apart = guard-eq-ok _ _ apart in
    (
      parsed,
      read,
      to_set-IsDistinct parsed (ground arith),
      there_is targets (guard-eq-ok _ _ some_there),
      ground arith,
      guard-eq-ok _ _ e,
    )

there_are : (xs : List String) → 1 ≤ length xs → not (is_empty xs) ≡ true
unfolding is_empty
there_are [] h = absurd (omega (arith, h))
there_are (x ∷ xs) h = refl

leb-64 : (n : ℕ) → n ≤ 64 → leb n 64 ≡ true
leb-64 n h = ground arith

eqb_self : (m n : ℕ) → m ≡ n → eqb m n ≡ true
eqb_self m n h = ground arith

-- validate_targets accepts exactly this: between 1 and 64 targets, each of which can be read, no
-- two of them read as the same, and the mode `all` or `any`.
pub validate_targets_iff :
    (targets : List String) (mode : String)
    → (validate_targets targets mode ≡ ok tt) ↔ IsAccepted targets mode
unfolding validate_targets
validate_targets_iff targets mode = (
  validate_targets-IsAccepted targets mode,
  λ (parsed, read, apart, some_there, few, valid).
      rw
        (
          there_are targets some_there,
          leb-64 (length targets) few,
          read,
          eqb_self _ _ (IsDistinct-to_set parsed apart),
          valid,
        )
        refl,
)
