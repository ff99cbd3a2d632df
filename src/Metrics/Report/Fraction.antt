-- ===== src/Metrics/Report/Fraction.antt =====
-- The part of its time that a resource was owned is no more than the whole.
use orchestrator_engine.Prelude.{
  ℕ, zero, suc, ◌-◌, ◌≤◌, String, ◌≡◌, subst, inl, inr, Option, none, some, [], ◌∷◌, All, filter,
  leb, Bool-cases, contains, map, Dict,
}
use orchestrator_engine.Result.{ok, >>=-eq-ok, eq_of_ok}
use orchestrator_engine.Ledger.State.{Stage, World, Ledger, Event}
use orchestrator_engine.Ledger.Save
use orchestrator_engine.Metrics.Ownership.{Spans, Tally}
use orchestrator_engine.Metrics.Ownership.Window.{
  AreWithin, IsTime, tally-AreWithin, intervals_union-bound,
}
use orchestrator_engine.Metrics.Report.{
  Ratio, LeafMeasure, Report, smallest, window_of, fraction_of, measure_leaf, measure_leaves,
  project_stages, ids_of, no_waits, add_all, written, report,
}

-- A quotient of no more than one.
abbrev pub IsPart : Option Ratio → Type 0
IsPart none = Unit
IsPart (some (part, whole)) = part ≤ whole

abbrev pub ArePart : Dict LeafMeasure → Type 0
ArePart = All (λ (e : String × LeafMeasure). IsPart e.1.ownership_fraction)

fraction_of-IsPart : (busy n : ℕ) → busy ≤ n → IsPart (fraction_of busy (some n))
unfolding fraction_of
fraction_of-IsPart busy zero h = tt
fraction_of-IsPart busy (suc n) h = h

measure_leaves-ArePart :
    (low high : ℕ) (t : Tally) (d : Dict Spans)
    → All (λ (e : String × Spans). AreWithin low high e.1) d
    → ArePart (measure_leaves (some (high - low)) t d)
unfolding measure_leaves measure_leaf
measure_leaves-ArePart low high t [] h = tt
measure_leaves-ArePart low high t ((leaf, spans) ∷ d) (m, h) = (
  fraction_of-IsPart _ _ (intervals_union-bound low high spans.intervals m),
  measure_leaves-ArePart low high t d h,
)

no_window-ArePart : (t : Tally) (d : Dict Spans) → ArePart (measure_leaves none t d)
unfolding measure_leaves measure_leaf fraction_of
no_window-ArePart t [] = tt
no_window-ArePart t ((leaf, spans) ∷ d) = (tt, no_window-ArePart t d)

-- The first creation of a stage of the project.
abbrev pub first_created : String → Ledger → Option ℕ
first_created project l = smallest (map (λ (s : Stage). s.created_at) (project_stages project l))

-- Where the events of the project's stages happened between the first creation of one and the
-- present, no resource was owned for more than the time of observation, as `report` measures it.
pub report-ArePart :
    (w : World) (project : String) (l : Ledger) (first : ℕ) (rep : Report)
    → first_created project l ≡ some first
    → All
        (IsTime first (Save.now w l))
        (filter (λ (e : Event). contains (ids_of (project_stages project l)) e.subject) l.events)
    → report w project l ≡ ok rep
    → ArePart rep.resources
unfolding report written window_of
report-ArePart w project l first rep start times e =
    let (v, waits, e) =
      >>=-eq-ok (add_all (Save.now w l) (project_stages project l) no_waits) _ e in
    subst (λ (r : Report). ArePart r.resources) (eq_of_ok e)
      (elim (Bool-cases (leb first (Save.now w l))) [
        | inl forward ↦
            rw (start, forward)
              (measure_leaves-ArePart first (Save.now w l) _ _ (
                tally-AreWithin first (Save.now w l) (ids_of (project_stages project l)) l.events
                  times))
        | inr back ↦ rw (start, back) (no_window-ArePart _ _)
      ])
