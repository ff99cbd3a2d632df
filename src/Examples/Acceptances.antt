-- ===== src/Examples/Acceptances.antt =====
-- An item that one source rejected first and accepts now.
use orchestrator_engine.Prelude.{
  ℕ, String, ◌≡◌, refl, Bool, true, false, List, [], ◌∷◌, All, filter, lookup, put,
}
use orchestrator_engine.Json
use orchestrator_engine.Json.{Json, Fields}
use orchestrator_engine.Ledger.State.{values}
use orchestrator_engine.Metrics.Acceptance
use orchestrator_engine.Metrics.Acceptance.{
  Record, key_of, is_accepted, is_for, acceptance_states, acceptance_for_item,
}
use orchestrator_engine.Metrics.Acceptance.Sources.{IsUpheld, acceptance_for_item-IsUpheld}

program : Unit {0}
unfolding Json.get_or Json.eq lookup put values Acceptance.is_before Acceptance.insert
    Acceptance.sorted Acceptance.latest_from Acceptance.latest Acceptance.has_evidence
    Acceptance.is_accepted Acceptance.is_for Acceptance.by_source Acceptance.selected
    Acceptance.acceptance_states Acceptance.acceptance_for_item
program = tt

abbrev text : String → String → Fields → Fields
text k v fs = Fields.field k (Json.str v) fs

abbrev work : Fields
work =
    text "work_item_id" "w" (text "scope_revision_id" "s" (text "criteria_revision" "c" Fields.end))

abbrev spoken : ℕ → Bool → Record
spoken at accepted = record {
  record_type = "acceptance";
  source_id = "owner";
  known_at = at;
  effective_at = at;
  observation_id = "o";
  body = Fields.field "accepted" (Json.bool accepted) (text "evidence_ref" "log" work);
}

abbrev records : List Record
records = spoken 2 true ∷ spoken 1 false ∷ []

accepted_now : is_accepted (acceptance_for_item work (acceptance_states records)) ≡ true
unfolding program
accepted_now = refl

acceptance_for_item-IsUpheld_example :
    All (IsUpheld (filter (is_for (key_of work)) records)) (filter (is_for (key_of work)) records)
acceptance_for_item-IsUpheld_example = acceptance_for_item-IsUpheld records work accepted_now
