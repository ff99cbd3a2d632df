-- ===== src/Ledger/Forward/Splits.antt =====
-- `schedule` leaves the rows of stages that do not wait as they are.
use orchestrator_engine.Prelude.{
  ℕ, String, ◌≡◌, refl, sym, ap, ◌∙◌, inl, inr, Bool, true, false, Option, none, some, List, [],
  ◌∷◌, ◌==◌, All, Bool-cases, Dict, IsDict-lookup, lookup, eq_of_test, eq_of_some, if◌then◌else◌,
}
use orchestrator_engine.Result.{ok, >>=-eq-ok, eq_of_ok}
use orchestrator_engine.Resources.Alternatives
use orchestrator_engine.Resources.Alternatives.{sorted}
use orchestrator_engine.Ledger.State.{State, Stage, World, Ledger, values, active_stages}
use orchestrator_engine.Ledger.Save.{tick, event}
use orchestrator_engine.Ledger.Outcomes.{in_state, outcomes}
use orchestrator_engine.Ledger.Once.{outcomes-stages}
use orchestrator_engine.Ledger.Invariant.{IsSound}
use orchestrator_engine.Ledger.Safety.Schedule.{All-filter}
use orchestrator_engine.Ledger.Schedule.{
  schedule, split_of, context_of, opening, ready_before, try_all, distinct_requests,
}
use orchestrator_engine.Ledger.Schedule.Ready.{
  Verdict, verdict, unready, Split, mark_ready, sort_out, sort_all, first_pass,
}
use orchestrator_engine.Ledger.Forward.Rounds.{
  IsApart, Untouched, save-Untouched, try_all-Untouched,
}

module _ {A : Type 0} (P : A → Type 0) (before : A → A → Bool) where
  All-insert : (x : A) (xs : List A) → P x → All P xs → All P (Alternatives.insert before x xs)
  unfolding Alternatives.insert
  All-insert x [] p h = (p, tt)
  All-insert x (y ∷ ys) p (q, h) = elim (Bool-cases (before y x)) [
    | inl first ↦ rw first (q, All-insert x ys p h)
    | inr later ↦ rw later (p, (q, h))
  ]

  All-sorted : (xs : List A) → All P xs → All P (sorted before xs)
  unfolding sorted
  All-sorted [] h = tt
  All-sorted (x ∷ xs) (p, h) = All-insert x (sorted before xs) p (All-sorted xs h)

module _ (w : World) (id : String) where
  -- Those that wait are other stages.
  abbrev WaitsApart : Stage → Type 0
  WaitsApart t = in_state State.waiting t ≡ true → IsApart w id t

  mark_ready-Untouched :
      (s : Stage) (n : Option ℕ) (l : Ledger)
      → IsApart w id s
      → IsApart w id (mark_ready w s n l).0 × Untouched w id l (mark_ready w s n l).1
  unfolding mark_ready event
  mark_ready-Untouched s none l p = (p, refl)
  mark_ready-Untouched s (some n) l p = (p, refl)

  abbrev Goes : Split → Split → Type 0
  Goes sp sq = All (IsApart w id) sq.ready × Untouched w id sp.ledger sq.ledger

  sort_out-Untouched :
      (v : Verdict) (s : Stage) (sp : Split)
      → IsApart w id s
      → All (IsApart w id) sp.ready
      → Goes sp (sort_out w v s sp)
  unfolding sort_out
  sort_out-Untouched Verdict.is_ready s sp p h =
      let (q, kept) = mark_ready-Untouched s s.ready_seq sp.ledger p in ((q, h), kept)
  sort_out-Untouched (Verdict.waits reason) s sp p h =
      (h, save-Untouched w id (unready s reason) sp.ledger p)
  sort_out-Untouched Verdict.skips s sp p h = (h, save-Untouched w id _ (tick sp.ledger) p)

  one_round :
      (unavailable : List String) (s : Stage) (sp : Split)
      → WaitsApart s
      → All (IsApart w id) sp.ready
      → Goes sp (
          if in_state State.waiting s
          then sort_out w (verdict sp.ledger unavailable s) s sp
          else sp)
  one_round unavailable s sp p h = elim (Bool-cases (in_state State.waiting s)) [
    | inl waits ↦ rw waits (sort_out-Untouched (verdict sp.ledger unavailable s) s sp (p waits) h)
    | inr begun ↦ rw begun (h, refl)
  ]

  sort_all-Untouched :
      (unavailable : List String) (ss : List Stage) (sp : Split)
      → All WaitsApart ss
      → All (IsApart w id) sp.ready
      → Goes sp (sort_all w unavailable ss sp)
  unfolding sort_all
  sort_all-Untouched unavailable [] sp p h = (h, refl)
  sort_all-Untouched unavailable (s ∷ ss) sp (p, ps) h =
      let (ready, kept) = one_round unavailable s sp p h in
      let (all_ready, all_kept) = sort_all-Untouched unavailable ss _ ps ready in
      (all_ready, all_kept ∙ kept)

  -- In a sound ledger the row of a stage that does not wait is no row of one that does.
  rows-WaitsApart :
      (l : Ledger) (s : Stage) (rows : Dict Stage)
      → lookup id l.stages ≡ some s
      → in_state State.waiting s ≡ false
      → All (λ e. e.1.id ≡ e.0) rows
      → All (λ e. lookup e.0 l.stages ≡ some e.1) rows
      → All WaitsApart (values rows)
  unfolding values
  rows-WaitsApart l s [] there begun k h = tt
  rows-WaitsApart l s ((j, t) ∷ rows) there begun (e, k) (at, h) =
      (apart, rows-WaitsApart l s rows there begun k h)
    where
      apart : in_state State.waiting t ≡ true → (t.id == id) ≡ false
      apart waits = elim (Bool-cases (t.id == id)) [
        | inr other ↦ other
        | inl same ↦
            let there' = ap (λ x. lookup x l.stages) (sym e ∙ eq_of_test t.id id same) in
            let one : t ≡ s = eq_of_some (sym at ∙ there' ∙ there) in
            absurd (cc (waits, begun, ap (in_state State.waiting) one))
      ]

  -- A round of `schedule` changes no row of a stage that does not wait.
  pub schedule-Untouched :
      (unavailable : List String) (l m : Ledger) (granted : List Stage) (s : Stage)
      → IsSound l
      → lookup id l.stages ≡ some s
      → in_state State.waiting s ≡ false
      → schedule w unavailable l ≡ ok (granted, m)
      → Untouched w id l m
  unfolding schedule first_pass active_stages
  schedule-Untouched unavailable l m granted s v there begun e =
      let apart =
        All-filter WaitsApart _ (values l.stages)
          (rows-WaitsApart l s l.stages there begun v.keyed (IsDict-lookup l.stages v.dict)) in
      let (ready, kept) =
        sort_all-Untouched unavailable (active_stages l)
          (record { idle = []; ready = []; ledger = record l { released = [] } }) apart tt in
      let (r, tried_all, e) =
        >>=-eq-ok
          (try_all w (context_of w unavailable l)
            (sorted ready_before (split_of w unavailable l).ready) (opening w unavailable l))
          _ e in
      let (l', settled, e) =
        >>=-eq-ok (outcomes w (distinct_requests (active_stages l)) r.ledger) _ e in
      ap (λ x. lookup id x.1.stages) (sym (eq_of_ok e))
      ∙ ap (lookup id) (outcomes-stages w (distinct_requests (active_stages l)) r.ledger l' settled)
      ∙ try_all-Untouched w id (context_of w unavailable l) _ (opening w unavailable l) r
          (All-sorted (IsApart w id) ready_before _ ready) tt tried_all
      ∙ kept
