-- ===== src/Ledger/Schedule/Ready.antt =====
-- resource_queue.py: the first loop of `schedule`, which tells the ready stages from those that
-- wait for a dependency or a host, and skips those whose dependency failed.
use orchestrator_engine.Prelude.{
  ℕ, String, Bool, false, not, ◌&&◌, ◌||◌, Option, none, some, List, [], ◌∷◌, eqb, true,
  if◌then◌else◌, any, all, filter, contains,
}
use Prim.Native.Char.{Char, code}
use orchestrator_engine.Lease.Stat.{chars}
use orchestrator_engine.Ledger.State.{
  After, State, is_terminal, same_state, Stage, Notice, World, Ledger,
}
use orchestrator_engine.Ledger.Save.{now, tick, event, next_sequence, advance, save}
use orchestrator_engine.Ledger.Outcomes.{in_state, stages_of}

unfoldable pub starts_with : List Char → List Char → Bool
starts_with [] cs = true
starts_with (x ∷ xs) [] = false
starts_with (x ∷ xs) (c ∷ cs) = eqb (code x) (code c) && starts_with xs cs

-- `part in text`
unfoldable pub occurs_in : (part text : List Char) → Bool
occurs_in part [] = starts_with part []
occurs_in part (c ∷ cs) = starts_with part (c ∷ cs) || occurs_in part cs

-- `name in stage.get("after", [])`
abbrev pub is_after : After → String → Bool
is_after (After.names ns) name = contains ns name
is_after (After.text text) name = occurs_in (chars name) (chars text)

unfoldable pub predecessors : Ledger → Stage → List Stage
predecessors l s = filter (λ p. is_after s.after p.name) (stages_of s.request l)

abbrev outcome_passed : Option State → Bool
outcome_passed none = false
outcome_passed (some st) = same_state st State.passed

-- A predecessor that ended without passing, or is quarantined after it did not pass.
unfoldable pub is_lost : Stage → Bool
is_lost p =
    (is_terminal p.state && not (in_state State.passed p))
    || (in_state State.recovery_required p && not (outcome_passed p.outcome))

pub data Verdict : Type 0 where
  is_ready skips : Verdict
  waits : String → Verdict

unfoldable pub verdict : Ledger → List String → Stage → Verdict
verdict l unavailable s =
    if any is_lost (predecessors l s)
    then Verdict.skips
    else if not (all (in_state State.passed) (predecessors l s))
    then Verdict.waits "dependency_wait"
    else if contains unavailable s.project
    then Verdict.waits "host_wait"
    else Verdict.is_ready

abbrev pub unready : Stage → String → Stage
unready s reason = record s { protection = none; ready_seq = none; reason = some reason }

-- What the first loop hands on.
pub record Split : Type 0 where
  pub idle : List Stage
  pub ready : List Stage
  pub ledger : Ledger

-- A stage that becomes ready takes the next number and reads the clock.
unfoldable pub mark_ready : World → Stage → Option ℕ → Ledger → Stage × Ledger
mark_ready w s (some n) l = (s, l)
mark_ready w s none l = (
  record s { ready_at = some (now w l); ready_seq = some (next_sequence l) },
  event w s.id Notice.ready (advance (tick l)),
)

unfoldable pub sort_out : World → Verdict → Stage → Split → Split
sort_out w Verdict.is_ready s sp =
    let (s', l) = mark_ready w s s.ready_seq sp.ledger in
    record sp { ready = s' ∷ sp.ready; ledger = l }
sort_out w (Verdict.waits reason) s sp =
    let (s', l) = save w (unready s reason) sp.ledger in
    record sp { idle = s' ∷ sp.idle; ledger = l }
sort_out w Verdict.skips s sp =
    let skipped = record (unready s "dependency_failed") {
      state = State.skipped;
      finished_at = some (now w sp.ledger);
    } in
    record sp { ledger = (save w skipped (tick sp.ledger)).1 }

-- Later stages see what the earlier rounds wrote. The lists grow at their heads: they are sorted,
-- or counted, before their order matters.
unfoldable pub sort_all : World → List String → List Stage → Split → Split
sort_all w unavailable [] sp = sp
sort_all w unavailable (s ∷ ss) sp =
    sort_all w unavailable ss
      (if in_state State.waiting s then sort_out w (verdict sp.ledger unavailable s) s sp else sp)

unfoldable pub first_pass : World → List String → List Stage → Ledger → Split
first_pass w unavailable stages l =
    sort_all w unavailable stages (record { idle = []; ready = []; ledger = l })
