-- ===== src/Ledger/Operations.antt =====
-- resource_queue.py: the operations on a stage after its grant. Each returns the new ledger, or
-- the exception that rolls the transaction back.
use orchestrator_engine.Prelude.{
  ℕ, String, Bool, true, false, not, ◌&&◌, Option, none, some, List, [], ◌∷◌, ◌==◌, eqb,
  if◌then◌else◌, any, all, contains, keys, lookup,
}
use orchestrator_engine.Json
use orchestrator_engine.Json.{Json, Fields}
use orchestrator_engine.Result.{
  Result, ok, err, ◌>>=◌, ◌>>◌, guard, revoked_intent, stale_evidence, bad_evidence, revoked_token,
  bad_outcome, stale_completion, unowned_release, coupled_release, not_quiescent, key_error,
}
use orchestrator_engine.Resources.Registry.{Registry, fields_of, truthy, update}
use orchestrator_engine.Resources.Claims.{Allocation}
use orchestrator_engine.Resources.Alternatives.{sorted, text_before}
use orchestrator_engine.Resources.Selectors.{union}
use orchestrator_engine.Lease.Identity.{identity_matches}
use orchestrator_engine.Ledger.State.{State, is_terminal, is_owning, Stage, Notice, World, Ledger}
use orchestrator_engine.Ledger.Save.{now, tick, event, find_stage, find_request, save}
use orchestrator_engine.Ledger.Outcomes.{in_state, stages_of, outcomes}

unfoldable pub attach : World → String → ℕ → Json → Ledger → Result Ledger
attach w id epoch identity l = do
  s ← find_stage id l
  guard (in_state State.granted s && eqb s.epoch epoch) revoked_intent
  ok (save w (record s { state = State.launching; supervisor_identity = identity }) l).1

abbrev pub runner_fields : List String
runner_fields = "command_identity" ∷ "command_group" ∷ "command_index" ∷ "results" ∷ []

unfoldable pub field_names : Fields → List String
field_names Fields.end = []
field_names (Fields.field k v fs) = k ∷ field_names fs

-- stage.update(fields)
unfoldable pub merge_fields : Fields → Fields → Fields
merge_fields Fields.end old = old
merge_fields (Fields.field k v fs) old = merge_fields fs (update k v old)

unfoldable pub annotate : World → String → ℕ → Fields → Ledger → Result Ledger
annotate w id epoch fields l = do
  s ← find_stage id l
  guard (eqb s.epoch epoch && is_owning s.state) stale_evidence
  guard (all (contains runner_fields) (field_names fields)) bad_evidence
  ok (save w (record s { runner_evidence = merge_fields fields s.runner_evidence }) l).1

-- compare_digest(stage.get("launch_token", ""), token)
abbrev pub same_token : Option String → String → Bool
same_token none t = "" == t
same_token (some s) t = s == t

unfoldable pub admit : World → String → String → Ledger → Result (Stage × Ledger)
admit w id token l = do
  s ← find_stage id l
  guard (in_state State.launching s && not s.cancel_requested && same_token s.launch_token token)
      revoked_token
  let (s', l') = save w (record s { state = State.running; started_at = some (now w l) }) (tick l)
  ok (s', event w id (Notice.admitted s.epoch) l')

-- One round of the loop of `cancel`.
unfoldable pub cancel_stage : World → Stage → Ledger → Ledger
cancel_stage w s l =
    if in_state State.waiting s
    then (save w
        (record s { state = State.cancelled; finished_at = some (now w l); protection = none })
        (tick l)).1
    else if is_owning s.state
    then (save w (record s { cancel_requested = true }) l).1
    else (save w s l).1

unfoldable pub cancel_stages : World → List Stage → Ledger → Ledger
cancel_stages w [] l = l
cancel_stages w (s ∷ ss) l = cancel_stages w ss (cancel_stage w s l)

unfoldable pub cancel : World → String → Ledger → Result Ledger
cancel w request l = do
  find_request request l
  let l' = cancel_stages w (stages_of request l) l
  outcomes w (request ∷ []) (event w request Notice.cancel_requested l')

-- registry[leaf].get("recovery_group")
abbrev pub group_of : Registry → String → Result Json
group_of reg leaf = elim (lookup leaf reg) [
  | none ↦ err key_error
  | some e ↦ ok (Json.get_or "recovery_group" Json.null (fields_of e))
]

unfoldable pub groups_of : Registry → List String → Result (List Json)
groups_of reg [] = ok []
groups_of reg (leaf ∷ leaves) = do g ← group_of reg leaf; gs ← groups_of reg leaves; ok (g ∷ gs)

-- Whether a leaf of the allocation stays behind while one of its recovery group is released; the
-- leaves behind a coupled one are not looked at.
unfoldable pub is_coupled : Registry → List String → List Json → List String → Result Bool
is_coupled reg released groups [] = ok false
is_coupled reg released groups (leaf ∷ leaves) = do
  g ← group_of reg leaf
  elim (any (λ h. Json.eq h g) groups && truthy g && not (contains released leaf)) [
    | true ↦ ok true
    | false ↦ is_coupled reg released groups leaves
  ]

-- {k: v for k, v in allocation.items() if k not in released}
unfoldable pub without : List String → Allocation → Allocation
without released [] = []
without released ((leaf, c) ∷ a) =
    let rest = without released a in if contains released leaf then rest else (leaf, c) ∷ rest

abbrev pub is_empty : Allocation → Bool
is_empty [] = true
is_empty (x ∷ xs) = false

-- The stage that a completion leaves: quarantined while it still holds leaves.
unfoldable pub completed : Stage → State → List String → Json → ℕ → Stage
completed s outcome released evidence at =
    let rest = without released s.allocation in
    record s {
      state = if is_empty rest then outcome else State.recovery_required;
      outcome = some outcome;
      allocation = rest;
      evidence = evidence;
      finished_at = some at;
      launch_token = none;
      maintenance_token = none;
    }

-- _finish
unfoldable pub settle : World → String → ℕ → State → List String → Json → Ledger → Result Ledger
settle w id epoch outcome released evidence l = do
  s ← find_stage id l
  guard (eqb s.epoch epoch && is_owning s.state) stale_completion
  guard (all (contains (keys s.allocation)) released) unowned_release
  groups ← groups_of l.registry released
  coupled ← is_coupled l.registry released groups (keys s.allocation)
  guard (not coupled) coupled_release
  let l' = (save w (completed s outcome released evidence (now w l)) (tick l)).1
  let l'' = record l' { released = sorted text_before (union l'.released released) }
  outcomes w (s.request ∷ []) (event w id (Notice.finished outcome released evidence) l'')

unfoldable pub finish : World → String → ℕ → State → List String → Json → Ledger → Result Ledger
finish w id epoch outcome released evidence l = do
  guard (is_terminal outcome) bad_outcome
  settle w id epoch outcome released evidence l

-- evidence.get("quiescent") is not True
unfoldable pub is_quiescent : Json → Bool
is_quiescent (Json.obj fs) = elim (Json.get "quiescent" fs) [ some (Json.bool b) ↦ b | _ ↦ false ]
is_quiescent _ = false

abbrev pub or_failed : Option State → State
or_failed none = State.failed
or_failed (some s) = s

unfoldable pub recover : World → String → ℕ → List String → Json → Ledger → Result Ledger
recover w id epoch released evidence l = do
  s ← find_stage id l
  guard (in_state State.recovery_required s && is_quiescent evidence) not_quiescent
  finish w id epoch (or_failed s.outcome) released evidence l

-- The proof that a caller of `abort_unadmitted` has: the launch token of a cancelled intent, or
-- the identity of its supervisor.
unfoldable pub may_abort : Stage → Option String → Json → Bool
may_abort s none identity = identity_matches s.supervisor_identity identity
may_abort s (some token) identity =
    if token == ""
    then identity_matches s.supervisor_identity identity
    else s.cancel_requested && same_token s.launch_token token

unfoldable pub abort_outcome : Option String → State
abort_outcome none = State.failed
abort_outcome (some token) = if token == "" then State.failed else State.cancelled

abbrev pub not_started : Json
not_started = Json.obj (Fields.field "not_started" (Json.str "admission revoked") Fields.end)

unfoldable pub abort_unadmitted :
    World → String → ℕ → Option String → Json → Ledger → Result (Bool × Ledger)
abort_unadmitted w id epoch token identity l = do
  s ← find_stage id l
  if in_state State.launching s && eqb s.epoch epoch && may_abort s token identity
      then (settle w id epoch (abort_outcome token) (keys s.allocation) not_started l >>= λ l'.
          ok (true, l'))
      else ok (false, l)
