-- ===== src/Ledger/Plans.antt =====
-- resource_queue.py: `submit` before its transaction, which reads the stages of a plan and refuses
-- a cyclic one.
pub mod Acyclic
use orchestrator_engine.Prelude.{
  ℕ, zero, suc, String, Bool, true, false, not, ◌&&◌, Option, none, some, List, [], ◌∷◌, map,
  filter, any, all, contains, length, if◌then◌else◌,
}
use orchestrator_engine.Json
use orchestrator_engine.Json.{Json, Fields, Items}
use orchestrator_engine.Result.{
  Result, ok, err, ◌>>=◌, ◌>>◌, guard, or_raise, traverse, key_error, type_error, no_stages,
  duplicate_stage, cyclic_stages, unknown_dependency, exhausted,
}
use orchestrator_engine.Resources.Registry.{identifier, distinct}
use orchestrator_engine.Ledger.Schedule.Waiting.{characters}
use orchestrator_engine.Ledger.State.{After}

-- A stage of a plan: the parts that the ledger reads, and the whole dict.
pub record Definition : Type 0 where
  pub name : String
  pub after : After
  pub needs : Json
  pub fields : Fields

-- A dependency in a list that is no text is no name of a stage, and is refused here.
unfoldable pub dependency : Json → Result String
dependency (Json.str s) = ok s
dependency _ = err unknown_dependency

-- The keys of a dict.
unfoldable pub keys_of : Fields → List String
keys_of Fields.end = []
keys_of (Fields.field k v fs) = k ∷ keys_of fs

-- set(definition.get("after", [])): a text is the set of its characters.
abbrev pub after_names : After → List String
after_names (After.names ns) = ns
after_names (After.text s) = characters s

unfoldable pub after_of : Json → Result After
after_of (Json.arr vs) = do ns ← traverse dependency (Json.to_list vs); ok (After.names ns)
after_of (Json.obj fs) = ok (After.names (keys_of fs))
after_of (Json.str s) = ok (After.text s)
after_of _ = err type_error

unfoldable pub definition_of : Json → Result Definition
definition_of (Json.obj fs) = do
  raw ← or_raise key_error (Json.get "id" fs)
  name ← identifier raw
  after ← after_of (Json.get_or "after" (Json.arr Items.nil) fs)
  ok (record {
    name = name;
    after = after;
    needs = Json.get_or "needs" (Json.arr Items.nil) fs;
    fields = fs;
  })
definition_of _ = err type_error

unfoldable pub stages_in : Json → Result (List Json)
stages_in (Json.arr (Items.cons v vs)) = ok (v ∷ Json.to_list vs)
stages_in _ = err no_stages

abbrev pub names_of : List Definition → List String
names_of = map λ d. d.name

-- What `remaining -= ready` leaves: those that depend on something that remains.
abbrev pub is_blocked : List Definition → Definition → Bool
is_blocked ds d = any (contains (names_of ds)) (after_names d.after)

abbrev pub blocked : List Definition → List Definition
blocked ds = filter (is_blocked ds) ds

-- The loop `while remaining`. A round that takes out nothing raises, so there are at most as many
-- rounds as stages.
unfoldable pub peel : ℕ → List Definition → Result (Unit {0})
peel fuel [] = ok tt
peel zero (d ∷ ds) = err exhausted
peel (suc fuel) (d ∷ ds) =
    let rest = peel fuel (blocked (d ∷ ds)) in
    if all (is_blocked (d ∷ ds)) (d ∷ ds) then err cyclic_stages else rest

unfoldable pub read_plan : Fields → Result (List Definition)
read_plan plan = do
  raw ← stages_in (Json.get_or "stages" Json.null plan)
  ds ← traverse definition_of raw
  guard (distinct (names_of ds)) duplicate_stage
  peel (length ds) ds
  ok ds
