-- ===== src/Wait/Summary/Means.antt =====
-- What the status of a set of targets says of their number.
use orchestrator_engine.Prelude.{
  ℕ, suc, ◌+◌, ◌≤◌, String, ◌≡◌, refl, sym, ap, subst, ◌∙◌, ◌⊎◌, inl, inr, Bool, true, false, not,
  List, [], ◌∷◌, ◌==◌, arith, contains, filter, length, Bool-cases, eq_of_test,
}
use orchestrator_engine.Result.{ok, >>=-eq-ok, eq_of_ok}
use orchestrator_engine.Wait.Targets.{wait_modes, validate_targets}
use orchestrator_engine.Wait.Targets.Valid.{validate_targets_iff}
use orchestrator_engine.Wait.Snapshot.{Reports, Snapshot, operation_snapshot}
use orchestrator_engine.Wait.Summary.{
  Status, WaitStatus, Report, some_in, is_active, decided, is_met, summary, snapshots_from,
  operation_wait_snapshot,
}

-- The wait's condition: in the mode `any` one target has ended, in the mode `all` every one has.
abbrev pub IsMet : Report → Type 0
IsMet rep =
    ((rep.mode ≡ "any") × (1 ≤ rep.terminal_count))
    ⊎ ((rep.mode ≡ "all") × (rep.terminal_count ≡ rep.target_count))

-- And where it does not hold: none has ended, or not every one.
abbrev pub IsUnmet : Report → Type 0
IsUnmet rep =
    ((rep.mode ≡ "any") × (rep.terminal_count ≡ 0))
    ⊎ ((rep.mode ≡ "all") × (suc rep.terminal_count ≤ rep.target_count))

abbrev pub Says : Status → Report → Type 0
Says Status.action_required rep =
    (rep.wait_status ≡ WaitStatus.action_required) × (1 ≤ rep.action_required_count)
Says Status.unsuccessful rep =
    (rep.wait_status ≡ WaitStatus.condition_met)
    × (rep.action_required_count ≡ 0)
    × (1 ≤ rep.unsuccessful_count)
    × IsMet rep
Says Status.completed rep =
    (rep.wait_status ≡ WaitStatus.condition_met)
    × (rep.action_required_count ≡ 0)
    × (rep.successful_count ≡ rep.terminal_count)
    × IsMet rep
Says Status.waiting rep =
    (rep.wait_status ≡ WaitStatus.waiting)
    × (rep.condition_met ≡ false)
    × (rep.action_required_count ≡ 0)
    × IsUnmet rep
    × (rep.active_count + rep.terminal_count ≡ rep.target_count)
    × (1 ≤ rep.active_count)

module _ {A : Type 0} (p : A → Bool) where
  length-filter_split :
      (xs : List A) → length (filter p xs) + length (filter (λ x. not (p x)) xs) ≡ length xs
  length-filter_split [] = refl
  length-filter_split (x ∷ xs) = ground (arith, length-filter_split xs)

some_in-length : {A : Type 0} (xs : List A) → some_in xs ≡ true → 1 ≤ length xs
some_in-length [] h = cc
some_in-length (x ∷ xs) h = omega arith

empty-length : {A : Type 0} (xs : List A) → some_in xs ≡ false → length xs ≡ 0
empty-length [] h = refl
empty-length (x ∷ xs) h = cc

-- Where none asks for action, each target has ended or is active.
active_split :
    (xs : List Snapshot)
    → length (filter (λ (s : Snapshot). s.action_required) xs) ≡ 0
    → length (filter is_active xs) + length (filter (λ (s : Snapshot). s.terminal) xs) ≡ length xs
unfolding is_active
active_split [] h = refl
active_split (x ∷ xs) h = ground (arith, active_split xs)

filter-length : {A : Type 0} (p : A → Bool) (xs : List A) → length (filter p xs) ≤ length xs
filter-length p [] = omega arith
filter-length p (x ∷ xs) = ground (arith, filter-length p xs)

mode-all :
    (mode : String) → contains wait_modes mode ≡ true → (mode == "any") ≡ false → mode ≡ "all"
mode-all mode valid other = elim (Bool-cases ("all" == mode)) [
  | inl all ↦ sym (eq_of_test "all" mode all)
  | inr some_other ↦ elim (Bool-cases ("any" == mode)) [
    | inl any ↦
        absurd (cc (other, subst (λ s. (s == "any") ≡ true) (eq_of_test "any" mode any) refl))
    | inr none_of_both ↦ absurd (cc (rw (some_other, none_of_both) at valid))
  ]
]

abbrev ended : List Snapshot → List Snapshot
ended = filter (λ (s : Snapshot). s.terminal)

abbrev acting : List Snapshot → List Snapshot
acting = filter (λ (s : Snapshot). s.action_required)

abbrev failed : List Snapshot → List Snapshot
failed xs = filter (λ (s : Snapshot). not s.successful) (ended xs)

module _ (mode : String) (xs : List Snapshot) (valid : contains wait_modes mode ≡ true) where
  met :
      is_met mode (ended xs) xs ≡ true
      → ((mode ≡ "any") × (1 ≤ length (ended xs)))
        ⊎ ((mode ≡ "all") × (length (ended xs) ≡ length xs))
  unfolding is_met
  met h = elim (Bool-cases (mode == "any")) [
    | inl one ↦ inl (eq_of_test mode "any" one, some_in-length _ (rw one at h))
    | inr other ↦ inr (mode-all mode valid other, ground arith)
  ]

  not_met : 1 ≤ length xs → is_met mode (ended xs) xs ≡ false → suc (length (ended xs)) ≤ length xs
  unfolding is_met
  not_met there h = elim (Bool-cases (mode == "any")) [
    | inl one ↦ omega (arith, empty-length (ended xs) (rw one at h), there)
    | inr other ↦ ground (arith, filter-length (λ (s : Snapshot). s.terminal) xs)
  ]

  unmet :
      1 ≤ length xs
      → is_met mode (ended xs) xs ≡ false
      → ((mode ≡ "any") × (length (ended xs) ≡ 0))
        ⊎ ((mode ≡ "all") × (suc (length (ended xs)) ≤ length xs))
  unfolding is_met
  unmet there h = elim (Bool-cases (mode == "any")) [
    | inl one ↦ inl (eq_of_test mode "any" one, empty-length _ (rw one at h))
    | inr other ↦ inr (mode-all mode valid other, not_met there h)
  ]

  summary-Says : 1 ≤ length xs → Says (summary mode xs).status (summary mode xs)
  unfolding summary decided
  summary-Says there = elim (Bool-cases (some_in (acting xs))) [
    | inl acts ↦ rw acts (refl, some_in-length _ acts)
    | inr quiet ↦ elim (Bool-cases (is_met mode (ended xs) xs)) [
      | inr early ↦
          rw (quiet, early)
            (
              refl,
              refl,
              empty-length _ quiet,
              unmet there early,
              active_split xs (empty-length _ quiet),
              omega (arith, active_split xs (empty-length _ quiet), not_met there early),
            )
      | inl over ↦ elim (Bool-cases (some_in (failed xs))) [
        | inl fails ↦
            rw (quiet, over, fails) (refl, empty-length _ quiet, some_in-length _ fails, met over)
        | inr clean ↦
            rw (quiet, over, clean)
              (
                refl,
                empty-length _ quiet,
                omega (
                  arith,
                  length-filter_split (λ (s : Snapshot). s.successful) (ended xs),
                  empty-length _ clean,
                ),
                met over,
              )
      ]
    ]
  ]

snapshots_from-length :
    (h : Reports) (n : ℕ) (ts : List String) (ss : List Snapshot)
    → snapshots_from h n ts ≡ ok ss
    → length ss ≡ length ts
unfolding snapshots_from
snapshots_from-length h n [] ss e = sym (ap length (eq_of_ok e))
snapshots_from-length h n (t ∷ ts) ss e =
    let (s, looked, e) = >>=-eq-ok (operation_snapshot h n t) _ e in
    let (rest, more, e) = >>=-eq-ok (snapshots_from h (suc n) ts) _ e in
    sym (ap length (eq_of_ok e)) ∙ ap suc (snapshots_from-length h (suc n) ts rest more)

-- What operation_wait_snapshot reports of targets that it accepts: as many of them as were asked
-- for; the ended ones are the successful and the unsuccessful ones; and by its status some target
-- asks for action, or none does and the condition of the mode holds with a failure or without one,
-- or none does, the condition does not hold, and some target is still active while every other one
-- has ended.
pub operation_wait_snapshot-Says :
    (h : Reports) (n : ℕ) (targets : List String) (mode : String) (rep : Report)
    → operation_wait_snapshot h n targets mode ≡ ok rep
    → (rep.target_count ≡ length targets)
      × (rep.successful_count + rep.unsuccessful_count ≡ rep.terminal_count)
      × Says rep.status rep
unfolding operation_wait_snapshot
operation_wait_snapshot-Says h n targets mode rep e =
    let (unit, valid, e) = >>=-eq-ok (validate_targets targets mode) _ e in
    let (ss, looked, e) = >>=-eq-ok (snapshots_from h n targets) _ e in
    let (parsed, read, apart, some_there, few, valid) =
      (validate_targets_iff targets mode).0 valid in
    let count = snapshots_from-length h n targets ss looked in
    subst
      (λ (r : Report).
        (r.target_count ≡ length targets)
        × (r.successful_count + r.unsuccessful_count ≡ r.terminal_count)
        × Says r.status r)
      (eq_of_ok e)
      (
        unfold summary in count,
        unfold summary in length-filter_split (λ (s : Snapshot). s.successful) (ended ss),
        summary-Says mode ss valid (omega (arith, count, some_there)),
      )
