-- ===== src/Ledger/Safety/Schedule.antt =====
-- `schedule` as a whole.
use mathlib.Core.List.{Permᴰ, Mem, Nodup, Nodup-cons, Nodup-nil, append-nil, not-mem-nil, mem-cons}
use mathlib.Core.Logic.Or
use mathlib.Core.HLevel.{⊥_prop}
use mathlib.Core.List.Perm
use mathlib.Core.List.Permᴰ
use orchestrator_engine.Prelude.{
  String, ◌≡◌, refl, sym, ap, subst, ◌∙◌, inl, inr, Bool, true, false, none, some, List, [], ◌∷◌,
  ◌==◌, arith, All, Bool-cases, filter, lookup, Dict, IsDict, IsDict-lookup, test_self,
}
use orchestrator_engine.Result.{ok, >>=-eq-ok, ok-injective}
use orchestrator_engine.Resources.Alternatives.{insert, sorted}
use orchestrator_engine.Ledger.State.{
  State, is_owning, Stage, World, Ledger, values, active_stages, own, held, same_state,
}
use orchestrator_engine.Ledger.Outcomes.{in_state, outcomes}
use orchestrator_engine.Ledger.Held.{active-held}
use orchestrator_engine.Ledger.Held.Bags.{All-perm}
use orchestrator_engine.Ledger.Schedule.{
  ready_before, try_all, schedule, split_of, context_of, opening, distinct_requests,
}
use orchestrator_engine.Ledger.Invariant.{
  IsSound, Keeps, ids, IsFree, Calm, Calm-IsSound, Calm-trans, Calm-of_stages, outcomes-Calm,
}
use orchestrator_engine.Ledger.Safety.FirstPass.{IsFreeWaiting, SplitInv, first_pass-SplitInv}
use orchestrator_engine.Ledger.Safety.Rounds.{RoundInv, try_all-RoundInv}

-- Sorting keeps the stages.
module _ {A : Type 0} (before : A → A → Bool) where
  insert-perm : (x : A) (xs : List A) → Permᴰ (x ∷ xs) (insert before x xs)
  unfolding insert
  insert-perm x [] = Permᴰ.refl (x ∷ [])
  insert-perm x (y ∷ ys) = elim (Bool-cases (before y x)) [
    | inl later ↦ rw later (Permᴰ.trans (Permᴰ.swap refl refl) (Permᴰ.cons refl (insert-perm x ys)))
    | inr here ↦ rw here (Permᴰ.refl (x ∷ y ∷ ys))
  ]

  pub sorted-perm : (xs : List A) → Permᴰ xs (sorted before xs)
  unfolding sorted
  sorted-perm [] = Permᴰ.nil
  sorted-perm (x ∷ xs) =
      Permᴰ.trans (Permᴰ.cons refl (sorted-perm xs)) (insert-perm x (sorted before xs))

-- A stage that waits owns nothing.
waiting-own : (s : Stage) → in_state State.waiting s ≡ true → own s ≡ []
waiting-own s e = rw (waiting-is_owning s.state e)
  where
    waiting-is_owning : (st : State) → same_state st State.waiting ≡ true → is_owning st ≡ false
    waiting-is_owning st e = unfold same_state in (ground arith)

-- The rows of a sound ledger.
rows-IsFreeWaiting :
    (l : Ledger) (rows : Dict Stage)
    → All (λ e. e.1.id ≡ e.0) rows
    → All (λ e. lookup e.0 l.stages ≡ some e.1) rows
    → All (IsFreeWaiting l) (values rows)
unfolding values
rows-IsFreeWaiting l [] k h = tt
rows-IsFreeWaiting l ((id, s) ∷ rows) (e, k) (at, h) = (
  λ waits. (
    waiting-own s waits,
    (s, subst (λ x. lookup x l.stages ≡ some s) (sym e) at, waiting-own s waits),
  ),
  rows-IsFreeWaiting l rows k h,
)

pub All-filter :
    {A : Type 0} (P : A → Type 0) (p : A → Bool) (xs : List A) → All P xs → All P (filter p xs)
All-filter P p [] h = tt
All-filter P p (x ∷ xs) (q, h) = elim (Bool-cases (p x)) [
  | inl kept ↦ rw kept (q, All-filter P p xs h)
  | inr out ↦ rw out (All-filter P p xs h)
]

not-mem-filter :
    (p : Stage → Bool) (id : String) (rows : Dict Stage)
    → All (λ e. e.1.id ≡ e.0) rows
    → lookup id rows ≡ none
    → ¬ Mem id (ids (filter p (values rows)))
unfolding values lookup
not-mem-filter p id [] k new m = not-mem-nil m
not-mem-filter p id ((j, s) ∷ rows) (e, k) new m = elim (Bool-cases (j == id)) [
  | inl hit ↦ absurd (some-none (rw hit at new))
  | inr miss ↦
      let rest = not-mem-filter p id rows k (rw miss at new) in
      elim (Bool-cases (p s)) [
        | inl kept ↦
            Or.elim ⊥_prop (mem-cons.0 (rw kept at m))
              (λ same. true-false (sym (test_self id) ∙ ap (λ x. x == id) (same ∙ e) ∙ miss)) rest
        | inr out ↦ rest (rw out at m)
      ]
]
  where
    some-none : some s ≡ none → ⊥
    some-none q = cc

    true-false : true ≡ false → ⊥
    true-false q = cc

rows-Nodup :
    (p : Stage → Bool) (rows : Dict Stage)
    → All (λ e. e.1.id ≡ e.0) rows
    → IsDict rows
    → Nodup (ids (filter p (values rows)))
unfolding values
rows-Nodup p [] k d = Nodup-nil
rows-Nodup p ((id, s) ∷ rows) (e, k) (new, d) = elim (Bool-cases (p s)) [
  | inl kept ↦ rw kept (
      Nodup-cons.1 (
        subst (λ x. ¬ Mem x (ids (filter p (values rows)))) (sym e)
            (not-mem-filter p id rows k new),
        rows-Nodup p rows k d,
      ))
  | inr out ↦ rw out (rows-Nodup p rows k d)
]

-- Where the second loop begins.
module _ (w : World) (unavailable : List String) (l : Ledger) (v : IsSound l) where
  abbrev cleared : Ledger
  cleared = record l { released = [] }

  split-SplitInv : SplitInv cleared [] (split_of w unavailable l)
  unfolding active_stages
  split-SplitInv =
      first_pass-SplitInv w unavailable (active_stages l) cleared
        (All-filter (IsFreeWaiting cleared) _ (values l.stages)
          (rows-IsFreeWaiting cleared l.stages v.keyed (IsDict-lookup l.stages v.dict)))
        (rows-Nodup _ l.stages v.keyed v.dict)

  split-Calm : Calm l (split_of w unavailable l).ledger
  split-Calm = Calm-trans (Calm-of_stages l cleared refl refl) split-SplitInv.calm

  opening-RoundInv :
      RoundInv l.registry
        (sorted ready_before (split_of w unavailable l).ready)
        (opening w unavailable l)
  opening-RoundInv =
      let ready = (split_of w unavailable l).ready in
      record {
        registry = split-Calm.registry;
        sound = Calm-IsSound split-Calm v;
        same =
            subst (λ xs. Permᴰ xs (held (split_of w unavailable l).ledger))
              (split-Calm.same ∙ sym (active-held l))
              (Permᴰ.refl (held (split_of w unavailable l).ledger));
        free =
            All-perm (IsFree (split_of w unavailable l).ledger) (sorted-perm ready_before ready)
              split-SplitInv.ready;
        passed = tt;
        apart = subst Nodup (sym (append-nil (ids (sorted ready_before ready)))) (
            Perm.nodup (Perm.map (λ s. s.id) ∣ sorted-perm ready_before ready ∣₁)
              split-SplitInv.apart);
      }

-- Whatever the plans ask for, a round of scheduling that returns leaves a sound ledger: every leaf
-- is held within its capacity and shared in one group only, and the registry is as it was.
pub schedule-IsSound :
    (w : World) (unavailable : List String) (l m : Ledger) (granted : List Stage)
    → IsSound l
    → schedule w unavailable l ≡ ok (granted, m)
    → Keeps l m
unfolding schedule
schedule-IsSound w unavailable l m granted v e =
    let (r, tried, e1) = >>=-eq-ok (try_all w (context_of w unavailable l) _ _) _ e in
    let inv =
      try_all-RoundInv w (context_of w unavailable l) _ (opening w unavailable l) r
        (opening-RoundInv w unavailable l v) tried in
    let (l', sent, e2) =
      >>=-eq-ok (outcomes w (distinct_requests (active_stages l)) r.ledger) _ e1 in
    let calm = outcomes-Calm w (distinct_requests (active_stages l)) r.ledger l' sent in
    let same : l' ≡ m = ap (λ p. p.1) (ok-injective e2) in
    subst (Keeps l) same (Calm-IsSound calm inv.sound, calm.registry ∙ inv.registry)
