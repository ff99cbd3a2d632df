-- ===== src/Ledger/Intake.antt =====
-- resource_queue.py: what `submit` and `subscribe` do first with the subscriber that they are given.
pub mod Rows
pub mod Addressed
use orchestrator_engine.Prelude.{String, Bool, Option, none, some}
use orchestrator_engine.Json
use orchestrator_engine.Json.{Json, Fields}
use orchestrator_engine.Lease.Identity.{at}
use orchestrator_engine.Result.{Result, ok, err, ◌>>=◌, ◌>>◌, bad_subscription}
use orchestrator_engine.Resources.Registry.{identifier}
use orchestrator_engine.Events.Log.{Instant}
use orchestrator_engine.Binding.{validate_subscriber}
use orchestrator_engine.Ledger.State.{Subscriber, World, Ledger}
use orchestrator_engine.Ledger.Requests.{submit}
use orchestrator_engine.Ledger.Subscriptions.{subscribe}

unfoldable pub received : (instant : String → Instant) → Json → Result Subscriber
received instant (Json.obj body) = do
  validate_subscriber instant (Json.obj body)
  id ← identifier (at "id" body)
  ok (record { id = id; body = body })
received instant _ = err bad_subscription

unfoldable pub received_if_given :
    (instant : String → Instant) → Option Json → Result (Option Subscriber)
received_if_given instant none = ok none
received_if_given instant (some raw) = do s ← received instant raw; ok (some s)

unfoldable pub submit_for :
    (instant : String → Instant)
    → World
    → (project external : Json) → (plan : Fields) → Option Json
    → Ledger
    → Result (String × Ledger)
submit_for instant w project external plan subscriber l = do
  identifier project
  identifier external
  s ← received_if_given instant subscriber
  submit w project external plan s l

unfoldable pub subscribe_for :
    (instant : String → Instant)
    → World
    → (request contract : String) → Json
    → (remove : Bool) → Ledger
    → Result Ledger
subscribe_for instant w request contract subscriber remove l = do
  s ← received instant subscriber
  subscribe w request contract s remove l
