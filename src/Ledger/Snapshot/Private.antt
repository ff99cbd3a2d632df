-- ===== src/Ledger/Snapshot/Private.antt =====
-- What a snapshot does not show.
use orchestrator_engine.Prelude.{
  arith, String, ◌≡◌, refl, subst, Option, none, List, [], ◌∷◌, ◌==◌, All, map, filter, Bool-cases,
  inl, inr, eq_of_test,
}
use orchestrator_engine.Result.{ok, >>=-eq-ok, eq_of_ok}
use orchestrator_engine.Ledger.State.{Stage, Ledger}
use orchestrator_engine.Json
use orchestrator_engine.Json.{Fields}
use orchestrator_engine.Ledger.Outcomes.{omit, redact}
use orchestrator_engine.Ledger.Snapshot.{Delivery, Snapshot, check_project, reported, snapshot}

-- A stage of the project, without the tokens that let a holder act and without its commands.
abbrev pub IsPrivate : String → Stage → Type 0
IsPrivate project s =
    (s.project ≡ project)
    × (s.launch_token ≡ none)
    × (s.maintenance_token ≡ none)
    × (Json.get "commands" s.definition ≡ none)

omit-get : (key : String) (fs : Fields) → Json.get key (omit key fs) ≡ none
unfolding omit Json.get
omit-get key Fields.end = refl
omit-get key (Fields.field k v fs) = ground (arith, omit-get key fs)

redacted-IsPrivate :
    (project : String) (ss : List Stage)
    → All (IsPrivate project) (map redact (filter (λ s. s.project == project) ss))
unfolding redact
redacted-IsPrivate project [] = tt
redacted-IsPrivate project (s ∷ ss) = elim (Bool-cases (s.project == project)) [
  | inl mine ↦ rw mine (
    (eq_of_test s.project project mine, refl, refl, omit-get "commands" s.definition),
    redacted-IsPrivate project ss,
  )
  | inr other ↦ rw other (redacted-IsPrivate project ss)
]

-- Whatever request it is asked for, a snapshot for a project shows stages of that project only, and
-- none of their launch and maintenance tokens or commands.
pub snapshot-IsPrivate :
    (delivery_of : String → Delivery) (project : String) (request : Option String) (l : Ledger)
    (v : Snapshot)
    → snapshot delivery_of project request l ≡ ok v
    → All (IsPrivate project) v.stages
unfolding snapshot
snapshot-IsPrivate delivery_of project request l v h =
    let (_, _, e) = >>=-eq-ok (check_project project request l) _ h in
    subst (λ x. All (IsPrivate project) x.stages) (eq_of_ok e)
      (redacted-IsPrivate project (reported project request l))
