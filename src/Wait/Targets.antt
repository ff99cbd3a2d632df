-- ===== src/Wait/Targets.antt =====
-- operation_wait.py: parse_target and validate_targets.
pub mod Text
pub mod Valid
use Prim.Native.Char.{Char, code}
use orchestrator_engine.Prelude.{
  ℕ, zero, suc, String, Bool, true, false, not, ◌&&◌, ◌||◌, Option, none, some, List, [], ◌∷◌, ◌==◌,
  eqb, leb, length, contains, if◌then◌else◌,
}
use orchestrator_engine.Lease.Stat.{chars, text}
use orchestrator_engine.Result.{
  Result, ok, err, ◌>>=◌, ◌>>◌, guard, traverse, no_targets, too_many_targets, repeated_target,
  bad_target, bad_wait_mode,
}

-- SUPPORTED_TARGET_KINDS
pub data Kind : Type 0 where
  worker check ci pr : Kind

abbrev pub wait_modes : List String
wait_modes = "all" ∷ "any" ∷ []

abbrev pub max_wait_targets : ℕ
max_wait_targets = 64

pub record Target : Type 0 where
  pub kind : Kind
  pub id : String

unfoldable pub with_front : Char → Option (List Char × List Char) → Option (List Char × List Char)
with_front c none = none
with_front c (some (front, back)) = some (c ∷ front, back)

-- partition(":"): what stands before and behind the first colon.
unfoldable pub partition : List Char → Option (List Char × List Char)
partition [] = none
partition (c ∷ cs) =
    let rest = partition cs in if eqb (code c) b':' then some ([], cs) else with_front c rest

unfoldable pub kind_named : String → Option Kind
kind_named name =
    if name == "worker"
    then some Kind.worker
    else if name == "check"
    then some Kind.check
    else if name == "ci"
    then some Kind.ci
    else if name == "pr"
    then some Kind.pr
    else none

unfoldable pub target_of : Option Kind → String → Result Target
target_of none id = err bad_target
target_of (some kind) id = if id == "" then err bad_target else ok (record { kind = kind; id = id })

unfoldable pub from_parts : Option (List Char × List Char) → Result Target
from_parts none = err bad_target
from_parts (some (kind, id)) = target_of (kind_named (text kind)) (text id)

unfoldable pub parse_target : String → Result Target
parse_target value = from_parts (partition (chars value))

unfoldable pub same_kind : Kind → Kind → Bool
same_kind Kind.worker Kind.worker = true
same_kind Kind.check Kind.check = true
same_kind Kind.ci Kind.ci = true
same_kind Kind.pr Kind.pr = true
same_kind _ _ = false

unfoldable pub same_target : Target → Target → Bool
same_target a b = same_kind a.kind b.kind && a.id == b.id

unfoldable pub is_in : Target → List Target → Bool
is_in t [] = false
is_in t (u ∷ us) = same_target t u || is_in t us

-- set(parsed)
unfoldable pub to_set : List Target → List Target
to_set [] = []
to_set (t ∷ ts) = let rest = to_set ts in if is_in t ts then rest else t ∷ rest

unfoldable pub is_empty : List String → Bool
is_empty [] = true
is_empty _ = false

unfoldable pub validate_targets : List String → (mode : String) → Result (Unit {0})
validate_targets targets mode = do
  guard (not (is_empty targets)) no_targets
  guard (leb (length targets) max_wait_targets) too_many_targets
  parsed ← traverse parse_target targets
  guard (eqb (length (to_set parsed)) (length parsed)) repeated_target
  guard (contains wait_modes mode) bad_wait_mode
