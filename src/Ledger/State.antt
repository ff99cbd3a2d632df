-- ===== src/Ledger/State.antt =====
-- resource_queue.py: what the SQLite tables hold, and what the ledger takes from outside. A
-- transaction is a function to a `Result`: an exception rolls back, so it has no new state.
use orchestrator_engine.Prelude.{
  ℕ, String, Bool, true, false, Option, List, [], ◌∷◌, ◌++◌, filter, not, Dict, if◌then◌else◌,
}
use orchestrator_engine.Json.{Json, Fields}
use orchestrator_engine.Resources.Registry.{Registry}
use orchestrator_engine.Resources.Claims.{Allocation}

pub data State : Type 0 where
  waiting granted launching running cleanup recovery_required : State
  passed failed cancelled invalidated skipped : State

-- TERMINAL and OWNING
abbrev pub is_terminal : State → Bool
is_terminal State.passed = true
is_terminal State.failed = true
is_terminal State.cancelled = true
is_terminal State.invalidated = true
is_terminal State.skipped = true
is_terminal _ = false

abbrev pub is_owning : State → Bool
is_owning State.granted = true
is_owning State.launching = true
is_owning State.running = true
is_owning State.cleanup = true
is_owning State.recovery_required = true
is_owning _ = false

unfoldable pub same_state : State → State → Bool
same_state State.waiting State.waiting = true
same_state State.granted State.granted = true
same_state State.launching State.launching = true
same_state State.running State.running = true
same_state State.cleanup State.cleanup = true
same_state State.recovery_required State.recovery_required = true
same_state State.passed State.passed = true
same_state State.failed State.failed = true
same_state State.cancelled State.cancelled = true
same_state State.invalidated State.invalidated = true
same_state State.skipped State.skipped = true
same_state _ _ = false

-- What a definition has under `after`: a list, or the keys of a dict, or a text.
pub data After : Type 0 where
  names : List String → After
  text : String → After

-- A row of `stages`: the dict of its body. `none` is a key that is not there, or a None.
pub record Stage : Type 0 where
  pub id : String
  pub name : String
  pub request : String
  pub project : String
  pub after : After
  pub needs : Json
  pub definition : Fields
  pub state : State
  pub seq : ℕ
  pub reason : Option String
  pub epoch : ℕ
  pub allocation : Allocation
  pub granted_allocation : Allocation
  pub resource_incarnations : Dict String
  pub protection : Option Allocation
  pub launch_token : Option String
  pub maintenance_token : Option String
  pub cancel_requested : Bool
  pub supervisor_identity : Json
  pub runner_evidence : Fields
  pub outcome : Option State
  pub evidence : Json
  pub created_at : ℕ
  pub ready_at : Option ℕ
  pub ready_seq : Option ℕ
  pub granted_at : Option ℕ
  pub started_at : Option ℕ
  pub finished_at : Option ℕ
  pub transition_at : Option ℕ
  pub wait_seconds : Dict (Option ℕ)
  pub bypass_count : ℕ
  pub blockers : List String

pub record Subscriber : Type 0 where
  pub id : String
  pub body : Fields

pub record Request : Type 0 where
  pub id : String
  pub project : String
  pub external : String
  pub plan : Json
  pub subscribers : List Subscriber
  pub created_at : ℕ

-- A row of `subscriber_history`.
pub record Generation : Type 0 where
  pub request : String
  pub subscriber : String
  pub generation : ℕ
  pub body : Subscriber
  pub active : Bool

-- The kinds of event, with the parts of their bodies.
pub data Notice : Type 0 where
  state_changed : State → Option String → Notice
  configured : Registry → Notice
  submitted : (project external : String) → Notice
  ready : Notice
  granted : Allocation → (epoch : ℕ) → (capacities : Dict ℕ) → Notice
  protected : Allocation → Notice
  admitted : (epoch : ℕ) → Notice
  cancel_requested subscribed unsubscribed : Notice
  finished : (outcome : State) → (released : List String) → (evidence : Json) → Notice

pub record Event : Type 0 where
  pub at : ℕ
  pub subject : String
  pub notice : Notice

-- A row of `outbox` at its insertion.
pub record Message : Type 0 where
  pub id : String
  pub request : String
  pub project : String
  pub external : String
  pub status : String
  pub outcome_id : String
  pub subscriber : Subscriber
  pub generation : ℕ
  pub stages : List Stage

-- What is not this program's: each reading of the clock, each random identifier and token, and
-- the digests that name an outcome and its delivery. Times are whole units of the clock.
pub record World : Type 0 where
  pub clock : ℕ → ℕ
  pub uuid : ℕ → String
  pub token : ℕ → String
  pub plan_digest : Json → String
  pub outcome_digest : String → List (String × ℕ) → String
  pub delivery_id : (request subscriber : String) → (generation : ℕ) → (outcome : String) → String

-- The tables. `stages` and `requests` are keyed by id, and stand in order of insertion, which is
-- the order of `seq`. `reads` and `draws` count the clock readings and the random draws so far.
pub record Ledger : Type 0 where
  pub registry : Registry
  pub released : List String
  pub sequence : ℕ
  pub stages : Dict Stage
  pub requests : Dict Request
  pub history : List Generation
  pub events : List Event
  pub outbox : List Message
  pub reads : ℕ
  pub draws : ℕ

unfoldable pub values {ℓ} : {V : Type ℓ} → Dict V → List V
values [] = []
values ((k, v) ∷ d) = v ∷ values d

-- stages(active=True): all that are in no terminal state.
unfoldable pub active_stages : Ledger → List Stage
active_stages l = filter (λ s. not (is_terminal s.state)) (values l.stages)

-- The stages that own their allocation.
unfoldable pub owners : List Stage → List Stage
owners = filter (λ s. is_owning s.state)

-- The allocations that stages own, and what the ledger has handed out.
abbrev pub own : Stage → List Allocation
own s = if is_owning s.state then s.allocation ∷ [] else []

unfoldable pub owned : List Stage → List Allocation
owned [] = []
owned (s ∷ ss) = own s ++ owned ss

unfoldable pub held : Ledger → List Allocation
held l = owned (values l.stages)
