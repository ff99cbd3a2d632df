-- ===== src/Ledger/Save.antt =====
-- resource_queue.py: the clock, the sequence, `event`, `stage`, `save`.
use orchestrator_engine.Prelude.{
  ℕ, suc, ◌+◌, ◌-◌, String, Bool, true, false, not, ◌&&◌, Option, none, some, [], ◌∷◌, ◌++◌, ◌==◌,
  leb, if◌then◌else◌, lookup, put, Dict,
}
use orchestrator_engine.Result.{Result, or_raise, unknown_stage, unknown_request}
use orchestrator_engine.Ledger.State.{State, same_state, Stage, Request, Notice, World, Ledger}

-- self.clock()
abbrev pub now : World → Ledger → ℕ
now w l = w.clock l.reads

abbrev pub tick : Ledger → Ledger
tick l = record l { reads = suc l.reads }

unfoldable pub event : World → String → Notice → Ledger → Ledger
event w subject notice l = record (tick l) {
  events = l.events ++ record { at = now w l; subject = subject; notice = notice } ∷ [];
}

-- self.sequence()
abbrev pub next_sequence : Ledger → ℕ
next_sequence l = suc l.sequence

abbrev pub advance : Ledger → Ledger
advance l = record l { sequence = suc l.sequence }

unfoldable pub find_stage : String → Ledger → Result Stage
find_stage id l = or_raise unknown_stage (lookup id l.stages)

unfoldable pub find_request : String → Ledger → Result Request
find_request id l = or_raise unknown_request (lookup id l.requests)

abbrev pub same_reason : Option String → Option String → Bool
same_reason none none = true
same_reason (some a) (some b) = a == b
same_reason _ _ = false

abbrev or_else : {A : Type 0} → Option A → A → A
or_else none d = d
or_else (some a) d = a

-- `previous + duration`, unless the clock went back or an earlier wait is unknown.
unfoldable pub add_wait : (since at : ℕ) → Option (Option ℕ) → Option ℕ
add_wait since at none = if leb since at then some (at - since) else none
add_wait since at (some none) = none
add_wait since at (some (some previous)) =
    if leb since at then some (previous + (at - since)) else none

-- The waiting times so far, when a row is about to change.
unfoldable pub accumulated : ℕ → Option Stage → Dict (Option ℕ)
accumulated at none = []
accumulated at (some old) =
    if same_state old.state State.waiting
    then (let reason = or_else old.reason "unknown" in
        put reason
          (add_wait (or_else old.transition_at old.created_at) at (lookup reason old.wait_seconds))
          old.wait_seconds)
    else old.wait_seconds

unfoldable pub is_changed : Option Stage → Stage → Bool
is_changed none s = true
is_changed (some old) s = not (same_state old.state s.state && same_reason old.reason s.reason)

-- INSERT OR REPLACE INTO stages
unfoldable pub write : Stage → Ledger → Ledger
write s l = record l { stages = put s.id s l.stages }

-- The stage as `save` leaves it, and the ledger. A change reads the clock twice: for the
-- transition and for its event.
unfoldable pub save : World → Stage → Ledger → Stage × Ledger
save w s l =
    let old = lookup s.id l.stages in
    let s' = record s {
      wait_seconds = accumulated (now w l) old;
      transition_at = some (now w l);
    } in
    if is_changed old s
    then (s', write s' (event w s.id (Notice.state_changed s.state s.reason) (tick l)))
    else (s, write s l)
