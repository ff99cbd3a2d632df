-- ===== src/Wait/Snapshot/Sorted.antt =====
-- The tables of statuses are apart, so a check or a monitor is in one of three states.
use orchestrator_engine.Prelude.{
  ℕ, String, ◌≡◌, refl, sym, subst, inl, inr, Bool, true, false, not, ◌&&◌, ◌||◌, List, [], ◌∷◌,
  ◌==◌, arith, all, contains, Bool-cases, eq_of_test,
}
use orchestrator_engine.Json.{Fields}
use orchestrator_engine.Result.{ok, >>=-eq-ok, eq_of_ok}
use orchestrator_engine.Wait.Targets.{Kind, Target, parse_target}
use orchestrator_engine.Wait.Snapshot.{
  Reports, Snapshot, active_statuses, broken_statuses, check_ends, ci_ends, pr_ends,
  requires_action, status_in, report_item, judged, snapshot_of, operation_snapshot,
}

abbrev pub is_worker : Kind → Bool
is_worker Kind.worker = true
is_worker _ = false

contains-apart :
    (xs ys : List String) (s : String)
    → all (λ x. not (contains ys x)) xs ≡ true
    → contains xs s ≡ true
    → contains ys s ≡ false
contains-apart [] ys s apart h = cc
contains-apart (x ∷ xs) ys s apart h = elim (Bool-cases (x == s)) [
  | inl same ↦ subst (λ t. contains ys t ≡ false) (eq_of_test x s same) (ground arith)
  | inr other ↦ contains-apart xs ys s (ground arith) (rw other at h)
]

-- The three states of an operation: it has ended, it asks for action, or it is active.
abbrev pub IsSorted : (terminal successful action_required active : Bool) → Type 0
IsSorted terminal successful action active =
    ((successful && not terminal) ≡ false)
    × ((terminal && action) ≡ false)
    × ((not terminal && not action) ≡ active)

-- The tests behind them: a status that ends the operation is neither broken nor active, and a broken
-- one is not active.
IsSorted-tests :
    (terminal broken active success : Bool)
    → (terminal && broken) ≡ false
    → (terminal && active) ≡ false
    → (broken && active) ≡ false
    → IsSorted terminal (terminal && success) (broken || not terminal && not active) active
IsSorted-tests terminal broken active success a b c = (ground arith, ground arith, ground arith)

both-false :
    (xs ys : List String) (s : String)
    → all (λ x. not (contains ys x)) xs ≡ true
    → (contains xs s && contains ys s) ≡ false
both-false xs ys s apart = elim (Bool-cases (contains xs s)) [
  | inl there ↦ rw (there, contains-apart xs ys s apart there) refl
  | inr away ↦ rw away refl
]

status-IsSorted :
    (ends : List String) (status : String) (success : Bool)
    → all (λ x. not (contains broken_statuses x)) ends ≡ true
    → all (λ x. not (contains active_statuses x)) ends ≡ true
    → IsSorted
        (contains ends status)
        (contains ends status && success)
        (requires_action status (contains ends status))
        (contains active_statuses status)
unfolding requires_action
status-IsSorted ends status success a b =
    IsSorted-tests (contains ends status) (contains broken_statuses status)
      (contains active_statuses status) success (both-false ends broken_statuses status a)
      (both-false ends active_statuses status b)
      (both-false broken_statuses active_statuses status refl)

abbrev Sorted : Bool × Bool × Bool → String → Type 0
Sorted (terminal, successful, action) status =
    IsSorted terminal successful action (contains active_statuses status)

judged-Sorted :
    (k : Kind) (item : Fields) (status : String)
    → is_worker k ≡ false
    → Sorted (judged k item status) status
unfolding judged
judged-Sorted Kind.worker item status h = cc
judged-Sorted Kind.check item status h = status-IsSorted check_ends status _ refl refl
judged-Sorted Kind.ci item status h = status-IsSorted ci_ends status _ refl refl
judged-Sorted Kind.pr item status h = status-IsSorted pr_ends status _ refl refl

snapshot_of-Sorted :
    (target : String) (t : Target) (item : Fields) (status : String) (v : Bool × Bool × Bool)
    (s : Snapshot)
    → Sorted v status
    → snapshot_of target t item status v ≡ s
    → IsSorted s.terminal s.successful s.action_required (contains active_statuses s.status)
unfolding snapshot_of
snapshot_of-Sorted target t item status (a, b, c) s h e =
    subst
      (λ (x : Snapshot).
        IsSorted x.terminal x.successful x.action_required (contains active_statuses x.status))
      e h

snapshot_of-kind :
    (target : String) (t : Target) (item : Fields) (status : String) (v : Bool × Bool × Bool)
    → (snapshot_of target t item status v).kind ≡ t.kind
unfolding snapshot_of
snapshot_of-kind target t item status (a, b, c) = refl

-- The snapshot of a check or a monitor that is no worker: what is successful has ended, what has
-- ended asks for no action, and it is neither exactly when its status is one of the active ones.
pub operation_snapshot-IsSorted :
    (h : Reports) (n : ℕ) (target : String) (s : Snapshot)
    → operation_snapshot h n target ≡ ok s
    → is_worker s.kind ≡ false
    → IsSorted s.terminal s.successful s.action_required (contains active_statuses s.status)
unfolding operation_snapshot
operation_snapshot-IsSorted h n target s e other =
    let (t, parsed, e) = >>=-eq-ok (parse_target target) _ e in
    let (report, read, e) = >>=-eq-ok (h.report n t) _ e in
    let (item, found, e) = >>=-eq-ok (report_item h t.kind report) _ e in
    let made = eq_of_ok e in
    snapshot_of-Sorted target t item _ (judged t.kind item (status_in h item)) s
      (judged-Sorted t.kind item _ (kind_stays t item s made other)) made
  where
    kind_stays :
        (t : Target) (item : Fields) (s : Snapshot)
        → snapshot_of target t item (status_in h item) (judged t.kind item (status_in h item)) ≡ s
        → is_worker s.kind ≡ false
        → is_worker t.kind ≡ false
    kind_stays t item s made other =
        subst (λ k. is_worker k ≡ false) (snapshot_of-kind target t item _ _)
          (subst (λ (x : Snapshot). is_worker x.kind ≡ false) (sym made) other)
