-- ===== src/Ledger/Steps.antt =====
-- resource_queue.py: the transactions of the class `Ledger` as steps, and the ledgers that any
-- order of them reaches from a new one. A transaction that raises is no step, as it rolls back.
use orchestrator_engine.Prelude.{ℕ, String, ◌≡◌, Bool, Option, List, []}
use orchestrator_engine.Json.{Json, Fields}
use orchestrator_engine.Result.{ok}
use orchestrator_engine.Ledger.State.{State, Stage, Subscriber, World, Ledger}
use orchestrator_engine.Ledger.Operations
use orchestrator_engine.Ledger.Requests
use orchestrator_engine.Ledger.Schedule
use orchestrator_engine.Ledger.Subscriptions

-- The tables that `__init__` creates; a random identifier is drawn for the authority.
unfoldable pub created : Ledger
created = record {
  registry = [];
  released = [];
  sequence = 0;
  stages = [];
  requests = [];
  history = [];
  events = [];
  outbox = [];
  reads = 0;
  draws = 1;
}

pub data Step (w : World) : Ledger → Ledger → Type 0 where
  configure : {l m : Ledger} (raw : Json) → Requests.configure w raw l ≡ ok m → Step w l m
  submit :
      {l m : Ledger} (project external : Json) (plan : Fields) (subscriber : Option Subscriber)
      (id : String)
      → Requests.submit w project external plan subscriber l ≡ ok (id, m)
      → Step w l m
  schedule :
      {l m : Ledger} (unavailable : List String) (granted : List Stage)
      → Schedule.schedule w unavailable l ≡ ok (granted, m)
      → Step w l m
  attach :
      {l m : Ledger} (id : String) (epoch : ℕ) (identity : Json)
      → Operations.attach w id epoch identity l ≡ ok m
      → Step w l m
  annotate :
      {l m : Ledger} (id : String) (epoch : ℕ) (fields : Fields)
      → Operations.annotate w id epoch fields l ≡ ok m
      → Step w l m
  admit :
      {l m : Ledger} (id token : String) (s : Stage)
      → Operations.admit w id token l ≡ ok (s, m)
      → Step w l m
  cancel : {l m : Ledger} (request : String) → Operations.cancel w request l ≡ ok m → Step w l m
  abort :
      {l m : Ledger} (id : String) (epoch : ℕ) (token : Option String) (identity : Json)
      (done : Bool)
      → Operations.abort_unadmitted w id epoch token identity l ≡ ok (done, m)
      → Step w l m
  subscribe :
      {l m : Ledger} (request contract : String) (s : Subscriber) (remove : Bool)
      → Subscriptions.subscribe w request contract s remove l ≡ ok m
      → Step w l m
  finish :
      {l m : Ledger} (id : String) (epoch : ℕ) (outcome : State) (released : List String)
      (evidence : Json)
      → Operations.finish w id epoch outcome released evidence l ≡ ok m
      → Step w l m
  recover :
      {l m : Ledger} (id : String) (epoch : ℕ) (released : List String) (evidence : Json)
      → Operations.recover w id epoch released evidence l ≡ ok m
      → Step w l m

pub data Reached (w : World) : Ledger → Type 0 where
  new : Reached w created
  then : {l m : Ledger} → Reached w l → Step w l m → Reached w m
