-- ===== src/Resources/Claims.antt =====
-- resource_queue.py: claims on leaves, allocations, and `compatible`.
pub mod Safety
use orchestrator_engine.Prelude.{
  ℕ, ◌+◌, String, Bool, true, false, not, ◌||◌, Option, none, some, List, [], ◌∷◌, ltb,
  if◌then◌else◌, any, Dict, lookup,
}
use orchestrator_engine.Json
use orchestrator_engine.Json.{Json}
use orchestrator_engine.Result.{Result, ok, err, ◌>>=◌, key_error}
use orchestrator_engine.Resources.Registry.{Registry, Entry}

pub data Mode : Type 0 where
  exclusive shared : Mode

abbrev pub is_shared : Mode → Bool
is_shared Mode.shared = true
is_shared Mode.exclusive = false

pub record Claim : Type 0 where
  pub mode : Mode
  pub units : ℕ
  pub compatibility : Json

-- Leaf to claim.
abbrev pub Allocation : Type 0
Allocation = Dict Claim

-- registry[leaf]["capacity"]: a leaf that is missing, or an entry with no capacity, is a KeyError.
abbrev pub capacity_of : Option Entry → Result ℕ
capacity_of none = err key_error
capacity_of (some (Entry.resource l)) = ok l.capacity
capacity_of (some (Entry.selector k ms fs)) = err key_error

-- [other[leaf] for other in others if leaf in other]
unfoldable pub occupied : String → List Allocation → List Claim
occupied leaf [] = []
occupied leaf (a ∷ others) = elim (lookup leaf a) [
  | none ↦ occupied leaf others
  | some c ↦ c ∷ occupied leaf others
]

unfoldable pub total_units : List Claim → ℕ
total_units [] = 0
total_units (c ∷ cs) = c.units + total_units cs

-- The test that shuts a claim out beside one that is held.
unfoldable pub clashes : Claim → Claim → Bool
clashes claim item =
    not (is_shared item.mode) || not (Json.eq item.compatibility claim.compatibility)

-- `leaf in registry and claim["units"] > registry[leaf]["capacity"]`
unfoldable pub over_capacity : Registry → String → Claim → Result Bool
over_capacity reg leaf claim = elim (lookup leaf reg) [
  | none ↦ ok false
  | some e ↦ do capacity ← capacity_of (some e); ok (ltb capacity claim.units)
]

-- One round of the loop of `compatible`: whether the claim fits beside those on its leaf.
unfoldable pub fits : Registry → String → Claim → List Claim → Result Bool
fits reg leaf claim [] = ok true
fits reg leaf claim (c ∷ cs) =
    if not (is_shared claim.mode) || any (clashes claim) (c ∷ cs) then ok false else do
      capacity ← capacity_of (lookup leaf reg)
      ok (not (ltb capacity (claim.units + total_units (c ∷ cs))))

unfoldable pub compatible : Registry → Allocation → List Allocation → Result Bool
compatible reg [] others = ok true
compatible reg ((leaf, claim) ∷ rest) others = do
  over ← over_capacity reg leaf claim
  elim over [
    | true ↦ ok false
    | false ↦ do
      fit ← fits reg leaf claim (occupied leaf others)
      elim fit [ true ↦ compatible reg rest others | false ↦ ok false ]
  ]
