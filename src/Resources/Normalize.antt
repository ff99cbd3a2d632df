-- ===== src/Resources/Normalize.antt =====
-- resource_queue.py: `normalize_registry`, the only way into a ledger's registry.
pub mod Normal
pub mod Physical
use orchestrator_engine.Prelude.{String, Option, none, some, List, [], ◌∷◌, keys}
use orchestrator_engine.Json
use orchestrator_engine.Json.{Json}
use orchestrator_engine.Result.{
  Result, ok, err, ◌>>=◌, ◌>>◌, next, bad_resources, unassignable_bundle,
}
use orchestrator_engine.Resources.Registry.{Registry, normalize_entries}
use orchestrator_engine.Resources.Alternatives.{Choice, depth, alternatives}

-- `if next(alternatives(result, name), None) is None: raise`
unfoldable pub some_alternative : Option Choice → Result (Unit {0})
some_alternative none = err unassignable_bundle
some_alternative (some c) = ok tt

unfoldable pub check_names : Registry → List String → Result (Unit {0})
check_names reg [] = ok tt
check_names reg (name ∷ names) = do
  first ← next (alternatives (depth reg) reg [] [] name [])
  some_alternative first
  check_names reg names

unfoldable pub normalize_registry : Json → Result Registry
normalize_registry (Json.obj raw) = do
  reg ← normalize_entries [] raw
  check_names reg (keys reg)
  ok reg
normalize_registry _ = err bad_resources
