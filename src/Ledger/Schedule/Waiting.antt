-- ===== src/Ledger/Schedule/Waiting.antt =====
-- resource_queue.py: the end of a round of `schedule` for a stage that gets no grant: its
-- protection, its reason and its blockers.
use Prim.Native.String.{String}
use orchestrator_engine.Prelude.{
  ℕ, suc, Bool, false, not, ◌&&◌, ◌||◌, Option, none, some, List, [], ◌∷◌, ◌++◌, eqb, if◌then◌else◌,
  any, all, length, contains, keys, lookup, put, Dict,
}
use orchestrator_engine.Json
use orchestrator_engine.Json.{Json}
use orchestrator_engine.Result.{Result, ok, ◌>>=◌, next, lazy_any}
use orchestrator_engine.Resources.Registry.{Registry}
use orchestrator_engine.Resources.Claims.{is_shared, Claim, Allocation, compatible}
use orchestrator_engine.Resources.Demands.{Demand, claim_of, demands}
use orchestrator_engine.Resources.Assignments.{Scope, assignments}
use orchestrator_engine.Ledger.State.{Stage, Notice, World, Ledger}
use orchestrator_engine.Ledger.Save.{event, save}

-- What stays fixed in the second loop.
pub record Context : Type 0 where
  pub registry : Registry
  pub quarantine : List String
  pub released : List String
  pub previously_ready : List String
  pub idle : List Stage

abbrev count_of : Option ℕ → ℕ
count_of none = 0
count_of (some n) = n

-- demand_count[leaf] = demand_count.get(leaf, 0) + 1
unfoldable pub bump_leaves : List String → Dict ℕ → Dict ℕ
bump_leaves [] counts = counts
bump_leaves (leaf ∷ leaves) counts =
    bump_leaves leaves (put leaf (suc (count_of (lookup leaf counts))) counts)

-- A stored protection that meets the quarantine or the protections before it is dropped.
unfoldable pub kept_protection :
    Context → List Allocation → Option Allocation → Result (Option Allocation)
kept_protection cx protection none = ok none
kept_protection cx protection (some a) =
    if any (contains cx.quarantine) (keys a)
    then ok none
    else do fit ← compatible cx.registry a protection; ok (if fit then some a else none)

-- A new protection after a release, for a stage that was ready before.
unfoldable pub candidate : Context → Dict ℕ → Stage → List Allocation → Result (Option Allocation)
candidate cx counts s protection = do
  kept ← kept_protection cx protection s.protection
  elim kept [
    | some a ↦ ok (some a)
    | none ↦
        if not (eqb (length cx.released) 0) && contains cx.previously_ready s.id
        then next (
            assignments
              (record {
                registry = cx.registry;
                others = protection;
                excluded = cx.quarantine;
                priority = counts;
                required = cx.released;
              })
              s.needs)
        else ok none
  ]

unfoldable pub same_claim : Claim → Option Claim → Bool
same_claim c none = false
same_claim c (some d) =
    eqb c.units d.units
    && (is_shared c.mode && is_shared d.mode || not (is_shared c.mode) && not (is_shared d.mode))
    && Json.eq c.compatibility d.compatibility

unfoldable pub same_allocation : Allocation → Option Allocation → Bool
same_allocation a none = false
same_allocation a (some b) =
    eqb (length a) (length b) && all (λ (leaf, c). same_claim c (lookup leaf b)) a

abbrev pub protect : World → Stage → Option Allocation → Ledger → Ledger
protect w s none l = l
protect w s (some a) l =
    if same_allocation a s.protection then l else event w s.id (Notice.protected a) l

abbrev pub with_protection : Option Allocation → List Allocation → List Allocation
with_protection none ps = ps
with_protection (some a) ps = ps ++ a ∷ []

abbrev pub reason_of : {A : Type 0} → Option A → String
reason_of none = "recovery_blocked"
reason_of (some a) = "resource_wait"

-- Iterating over a text gives its characters, each a text of its own.
unfoldable pub characters : String → List String
characters String.[] = []
characters (String.◌∷◌ c s) = String.◌∷◌ c String.[] ∷ characters s

-- `for options, … in demands(…) for leaves in options for leaf in leaves`: the first part of a
-- demand is the name of its selector, so `leaf` runs over the characters of that name.
unfoldable pub blocks_demand : Registry → Stage → Demand → Result Bool
blocks_demand reg t d =
    lazy_any
      (λ leaf. compatible reg ((leaf, claim_of d) ∷ []) (t.allocation ∷ []) >>= λ fit. ok (not fit))
      (characters d.name)

unfoldable pub blockers : Registry → List Demand → List Stage → Result (List String)
blockers reg ds [] = ok []
blockers reg ds (t ∷ ts) = do
  blocks ← lazy_any (blocks_demand reg t) ds
  rest ← blockers reg ds ts
  ok (if blocks then t.id ∷ rest else rest)

-- assignments(registry, needs, excluded=quarantine)
abbrev pub alone : Context → Scope
alone cx = record {
  registry = cx.registry;
  others = [];
  excluded = cx.quarantine;
  priority = [];
  required = [];
}

-- The stage with its protection, reason and blockers, saved.
unfoldable pub put_back :
    World → Stage → Option Allocation → String → List String → Ledger → Stage × Ledger
put_back w s found reason blocking l =
    save w (record s { protection = found; reason = some reason; blockers = blocking })
      (protect w s found l)

unfoldable pub keep_waiting :
    World
    → Context
    → Dict ℕ
    → Stage
    → List Stage
    → List Allocation
    → Ledger
    → Result (Stage × List Allocation × Ledger)
keep_waiting w cx counts s active protection l = do
  found ← candidate cx counts s protection
  possible ← next (assignments (alone cx) s.needs)
  ds ← demands cx.registry s.needs
  blocking ← blockers cx.registry ds active
  let (s', l') = put_back w s found (reason_of possible) blocking l
  ok (s', with_protection found protection, l')
