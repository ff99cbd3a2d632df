-- ===== src/Examples/Snapshots.antt =====
-- A snapshot of a ledger with one running stage.
use orchestrator_engine.Prelude.{
  String, ◌≡◌, refl, none, some, All, true, false, [], ◌∷◌, map, lookup,
}
use orchestrator_engine.Result.{Result, ok}
use orchestrator_engine.Ledger.State.{State, values}
use orchestrator_engine.Ledger.Outcomes
use orchestrator_engine.Ledger.Save
use orchestrator_engine.Ledger.Snapshot
use orchestrator_engine.Ledger.Snapshot.{Delivery, Snapshot}
use orchestrator_engine.Ledger.Snapshot.Private.{IsPrivate, snapshot-IsPrivate}
use orchestrator_engine.Examples.{ledger_in, value}

abbrev delivered : String → Delivery
delivered id = record { id = id; delivered = true; attempts = 1; last_error = none }

abbrev taken : Result Snapshot
taken = Snapshot.snapshot delivered "project" (some "request") (ledger_in State.running)

abbrev shown : Snapshot
shown =
    value (record { stages = []; delivery = []; terminal = false; action_required = false }) taken

taken_ok : taken ≡ ok shown
unfolding Snapshot.snapshot Snapshot.check_project Save.find_request lookup
taken_ok = refl

shown_one : map (λ s. s.id) shown.stages ≡ "stage" ∷ []
unfolding Snapshot.snapshot Snapshot.check_project Save.find_request lookup Snapshot.reported
    Snapshot.of_project Snapshot.selects Snapshot.is_request values Outcomes.redact
shown_one = refl

snapshot-IsPrivate_example : All (IsPrivate "project") shown.stages
snapshot-IsPrivate_example =
    snapshot-IsPrivate delivered "project" (some "request") (ledger_in State.running) shown taken_ok
