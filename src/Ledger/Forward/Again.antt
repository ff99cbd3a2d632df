-- ===== src/Ledger/Forward/Again.antt =====
-- Operations that no later transactions make possible again.
use orchestrator_engine.Prelude.{
  ℕ, String, ◌≡◌, refl, sym, ap, subst, ◌∙◌, true, false, not, ◌&&◌, some, List, lookup,
}
use orchestrator_engine.Json.{Json}
use orchestrator_engine.Result.{ok, err, >>=-eq-ok, ok-injective, revoked_token, stale_completion}
use orchestrator_engine.Ledger.State.{State, same_state, is_terminal, Stage, World, Ledger}
use orchestrator_engine.Ledger.Save.{now, tick, event, find_stage, save}
use orchestrator_engine.Ledger.Outcomes.{in_state}
use orchestrator_engine.Ledger.Operations.{admit, completed, is_empty, without, finish, same_token}
use orchestrator_engine.Ledger.Once.{
  save-state, saved_row, settle-row, completed-state, settle-terminal, terminal-is_owning,
}
use orchestrator_engine.Ledger.Invariant.{IsSound}
use orchestrator_engine.Ledger.Safety.Operations.{find_stage-id, after_guard, admit-IsSound}
use orchestrator_engine.Ledger.Safety.Releases.{finish-IsSound}
use orchestrator_engine.Ledger.Safety.Reach.{IsGood, Keeps-IsGood}
use orchestrator_engine.Ledger.Forward.Steps.{Holds, stages-Holds}
use orchestrator_engine.Ledger.Forward.Later.{
  Later, Later-Holds, has_begun, begun-IsClosed, terminal-IsClosed,
}

finish-ends :
    (w : World) (id : String) (epoch : ℕ) (o : State) (released : List String) (evidence : Json)
    (s : Stage) (l m : Ledger)
    → IsSound l
    → find_stage id l ≡ ok s
    → is_empty (without released s.allocation) ≡ true
    → finish w id epoch o released evidence l ≡ ok m
    → Holds w id is_terminal m
unfolding finish
finish-ends w id epoch o released evidence s l m v found all_out e =
    let (over, rest) = after_guard (is_terminal o) _ _ m e in
    let t = completed s o released evidence (now w l) in
    (
      (save w t (tick l)).0,
      settle-row w id epoch o released evidence s l m (find_stage-id id s l v found) found rest,
      ap is_terminal
            (save-state w t (tick l) ∙ completed-state s o released evidence (now w l) all_out)
          ∙ over,
    )

admit-begins :
    (w : World) (id token : String) (s : Stage) (l m : Ledger)
    → IsSound l
    → admit w id token l ≡ ok (s, m)
    → Holds w id has_begun m
unfolding admit event
admit-begins w id token s l m v e =
    let (r, found, rest) = >>=-eq-ok (find_stage id l) _ e in
    let (_, done) =
      after_guard
        (in_state State.launching r && not r.cancel_requested && same_token r.launch_token token) _
        _ (s, m) rest in
    let t = record r { state = State.running; started_at = some (now w l) } in
    stages-Holds w id has_begun (save w t (tick l)).1 m
      (ap (λ x. x.1.stages) (sym (ok-injective done)))
      (
        (save w t (tick l)).0,
        subst (λ x. lookup x (save w t (tick l)).1.stages ≡ some (save w t (tick l)).0)
            (find_stage-id id r l v found) (saved_row w t (tick l)),
        ap has_begun (save-state w t (tick l)),
      )

admit-begun :
    (w : World) (id token : String) (s : Stage) (l : Ledger)
    → lookup id l.stages ≡ some s
    → in_state State.launching s ≡ false
    → admit w id token l ≡ err revoked_token
unfolding admit find_stage
admit-begun w id token s l row past = rw (row, past) refl

begun-launching : (st : State) → has_begun st ≡ true → same_state st State.launching ≡ false
unfolding same_state
begun-launching State.waiting e = cc
begun-launching State.granted e = cc
begun-launching State.launching e = cc
begun-launching _ e = refl

-- A completion that releases every leaf of its stage is the last one: behind it and behind any
-- transactions that follow, no completion of that stage is accepted, whatever its epoch, outcome and
-- evidence, where no random identifier that they draw is the one of the stage.
pub finish-once :
    (w : World) (id : String) (epoch epoch' : ℕ) (o o' : State) (released released' : List String)
    (evidence evidence' : Json) (s : Stage) (l m n : Ledger)
    → IsGood l
    → find_stage id l ≡ ok s
    → is_empty (without released s.allocation) ≡ true
    → is_terminal o' ≡ true
    → finish w id epoch o released evidence l ≡ ok m
    → Later w id m n
    → finish w id epoch' o' released' evidence' n ≡ err stale_completion
unfolding finish
finish-once w id epoch epoch' o o' released released' evidence evidence' s l m n good found all_out
      over' e later =
    let (over, rest) = after_guard (is_terminal o) _ _ m e in
    let (t, there, ended) =
      (Later-Holds w id is_terminal terminal-IsClosed m n
        (Keeps-IsGood l m good.1 (finish-IsSound w id epoch o released evidence l m good.0 e)) later
        (finish-ends w id epoch o released evidence s l m good.0 found all_out e)).1 in
    rw over' (
      settle-terminal w id epoch' o' released' evidence' t n there
        (terminal-is_owning t.state ended))

-- A launch token admits once: behind a successful `admit` and behind any transactions that follow,
-- the stage is admitted with no token again, where no random identifier that they draw is the one
-- of the stage.
pub admit-once :
    (w : World) (id token again : String) (s : Stage) (l m n : Ledger)
    → IsGood l
    → admit w id token l ≡ ok (s, m)
    → Later w id m n
    → admit w id again n ≡ err revoked_token
admit-once w id token again s l m n good e later =
    let (t, there, begun) =
      (Later-Holds w id has_begun begun-IsClosed m n
        (Keeps-IsGood l m good.1 (admit-IsSound w id token s l m good.0 e)) later
        (admit-begins w id token s l m good.0 e)).1 in
    admit-begun w id again t n there (begun-launching t.state begun)
