-- ===== src/Resources/Demands.antt =====
-- resource_queue.py: `demands`, the checked form of a list of needs.
use orchestrator_engine.Prelude.{ℕ, String, List, ◌==◌, eqb, if◌then◌else◌, lookup}
use orchestrator_engine.Json
use orchestrator_engine.Json.{Json, Fields, ℤ}
use orchestrator_engine.Result.{
  Result, ok, err, ◌>>=◌, ◌>>◌, guard, or_raise, traverse, bad_needs, bad_need, bad_mode,
  exclusive_units, unknown_or_cyclic,
}
use orchestrator_engine.Resources.Registry.{Registry, identifier, positive}
use orchestrator_engine.Resources.Claims.{Mode, Claim}

-- A tuple (name, mode, units, group).
pub record Demand : Type 0 where
  pub name : String
  pub mode : Mode
  pub units : ℕ
  pub group : Json

abbrev pub claim_of : Demand → Claim
claim_of d = record { mode = d.mode; units = d.units; compatibility = d.group }

unfoldable pub mode_of : Json → Result Mode
mode_of (Json.str s) =
    if s == "exclusive"
    then ok Mode.exclusive
    else if s == "shared"
    then ok Mode.shared
    else err bad_mode
mode_of _ = err bad_mode

-- `if mode == "shared": identifier(group)`, and the next test
unfoldable pub check_group : Mode → Json → ℕ → Result (Unit {0})
check_group Mode.shared group units = do identifier group; ok tt
check_group Mode.exclusive group units = guard (eqb units 1) exclusive_units

unfoldable pub demand : Registry → Json → Result Demand
demand reg (Json.obj need) = do
  raw ← or_raise bad_need (Json.get "resource" need)
  name ← identifier raw
  mode ← mode_of (Json.get_or "mode" (Json.str "exclusive") need)
  units ← positive (Json.get_or "units" (Json.num (ℤ.pos 1)) need)
  let group = Json.get_or "compatibility" Json.null need
  check_group mode group units
  or_raise unknown_or_cyclic (lookup name reg)
  ok (record { name = name; mode = mode; units = units; group = group })
demand reg _ = err bad_need

unfoldable pub demands : Registry → Json → Result (List Demand)
demands reg (Json.arr needs) = traverse (demand reg) (Json.to_list needs)
demands reg _ = err bad_needs
