-- ===== src/Events/Log/Agreement.antt =====
-- Publications of one identifier: all return one event, a conflicting report is refused, and a
-- report that is repeated is accepted.
use orchestrator_engine.Prelude.{String, ◌≡◌, sym, ap, subst, ◌∙◌, some, lookup}
use orchestrator_engine.Json.{Json}
use orchestrator_engine.Lease.Identity.{at}
use orchestrator_engine.Result.{ok, eq_of_ok}
use orchestrator_engine.Events.Ids.{validate_event_id}
use orchestrator_engine.Events.Log.{
  Log, Site, Terminal, Written, given_id, terminal_keys, terminal_event, terminal_signal,
  write_terminal_event,
}
use orchestrator_engine.Events.Log.Once.{
  IsWrittenOnce, IsWrittenOnce-there, IsWrittenOnce-only, retain-IsWrittenOnce,
}
use orchestrator_engine.Events.Log.Steps.{
  TerminalPassed, write_terminal_event-passed, Reached, Reached-kept,
}
use orchestrator_engine.Events.Log.Reports.{TellsOf, passed-TellsOf}

str-injective : {a b : String} → Json.str a ≡ Json.str b → a ≡ b
str-injective e = cc

pub passed-IsWrittenOnce :
    (w : Site) (t : Terminal) (l : Log) (r : Written) (p : TerminalPassed w t l r)
    → IsWrittenOnce p.id (some r.0) l.events r.1.events
passed-IsWrittenOnce w t l r p =
    retain-IsWrittenOnce terminal_keys p.id t.emit_signal
      (terminal_event w t p.id p.result p.evidence) (terminal_signal w t p.id p.result p.evidence) l
      r p.published

-- Two terminal events that are written under one identifier, with any publications between them,
-- are the same event, and both calls report one task and one status: where the task or the status
-- is another one, the second call raises.
pub write_terminal_event-same :
    (w w' : Site) (t t' : Terminal) (l m : Log) (r r' : Written)
    → given_id w.uuid4 t.event_id ≡ given_id w'.uuid4 t'.event_id
    → write_terminal_event w t l ≡ ok r
    → Reached r.1 m
    → write_terminal_event w' t' m ≡ ok r'
    → (r'.0 ≡ r.0) × (t'.task_id ≡ t.task_id) × (t'.terminal_status ≡ t.terminal_status)
write_terminal_event-same w w' t t' l m r r' named h between h' = (
  same,
  said "task_id" _ _ q.task_id p.task_id,
  said "terminal_status" _ _ q.terminal_status p.terminal_status,
)
  where
    first : TerminalPassed w t l r
    first = write_terminal_event-passed w t l r h

    second : TerminalPassed w' t' m r'
    second = write_terminal_event-passed w' t' m r' h'

    p : TellsOf w t first.id first.result first.evidence r.0
    p = passed-TellsOf w t l r first

    q : TellsOf w' t' second.id second.result second.evidence r'.0
    q = passed-TellsOf w' t' m r' second

    same_id : first.id ≡ second.id
    same_id =
        eq_of_ok (sym first.of_id ∙ ap (λ i. validate_event_id (Json.str i)) named ∙ second.of_id)

    still : lookup second.id m.events ≡ some (some r.0)
    still =
        subst (λ i. lookup i m.events ≡ some (some r.0)) same_id
          (Reached-kept r.1 m first.id (some r.0) between (
            IsWrittenOnce-there first.id (some r.0) l.events r.1.events
              (passed-IsWrittenOnce w t l r first)))

    same : r'.0 ≡ r.0
    same = some_of (
        IsWrittenOnce-only second.id (some r'.0) (some r.0) m.events r'.1.events
          (passed-IsWrittenOnce w' t' m r' second) still)
      where
        some_of : some r.0 ≡ some r'.0 → r'.0 ≡ r.0
        some_of e = cc

    said : (key a b : String) → at key r'.0 ≡ Json.str a → at key r.0 ≡ Json.str b → a ≡ b
    said key a b e f = str-injective (sym e ∙ ap (at key) same ∙ f)
