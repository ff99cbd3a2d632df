-- ===== src/Ledger/Schedule.antt =====
-- resource_queue.py: `schedule`. The program's lists share the dicts that it changes; here each
-- stage stands in one list, `idle` (waiting, not ready), `pending` (ready, not yet tried),
-- `passed_over` (tried without a grant) or `active` (owning), and moves between them.
pub mod Ready
pub mod Waiting
pub mod Blockers
use orchestrator_engine.Prelude.{
  ℕ, suc, ◌+◌, String, Bool, true, false, not, ◌&&◌, ◌||◌, Option, none, some, List, [], ◌∷◌, ◌++◌,
  ◌==◌, ltb, eqb, if◌then◌else◌, any, map, filter, contains, keys, lookup, put, Dict,
}
use orchestrator_engine.Result.{Result, ok, err, ◌>>=◌, next, key_error, traverse}
use orchestrator_engine.Resources.Registry.{Registry, Entry, Leaf}
use orchestrator_engine.Resources.Claims.{Allocation}
use orchestrator_engine.Resources.Selectors.{selector_leaves, union_all}
use orchestrator_engine.Resources.Alternatives.{depth, sorted, text_before}
use orchestrator_engine.Resources.Demands.{Demand, demands}
use orchestrator_engine.Resources.Assignments.{Scope, assignments}
use orchestrator_engine.Ledger.State.{
  State, is_terminal, is_owning, Stage, Notice, World, Ledger, active_stages, owners,
}
use orchestrator_engine.Ledger.Save.{now, tick, event, save}
use orchestrator_engine.Ledger.Outcomes.{in_state, outcomes}
use Ready.{Split, first_pass}
use Waiting.{Context, bump_leaves, keep_waiting}

-- demand_count: how many demands of other waiting stages could use each leaf.
unfoldable pub count_demands : Registry → List Demand → Dict ℕ → Result (Dict ℕ)
count_demands reg [] counts = ok counts
count_demands reg (d ∷ ds) counts = do
  leaves ← selector_leaves (depth reg) reg d.name []
  count_demands reg ds (bump_leaves leaves counts)

unfoldable pub count_stages : Registry → List Stage → Dict ℕ → Result (Dict ℕ)
count_stages reg [] counts = ok counts
count_stages reg (s ∷ ss) counts = do
  ds ← demands reg s.needs
  counts' ← count_demands reg ds counts
  count_stages reg ss counts'

-- registry[leaf]["incarnation"], registry[leaf]["capacity"]
unfoldable pub leaf_of : Registry → String → Result Leaf
leaf_of reg leaf = elim (lookup leaf reg) [ some (Entry.resource l) ↦ ok l | _ ↦ err key_error ]

unfoldable pub with_leaf : Registry → String → Result (String × Leaf)
with_leaf reg leaf = do e ← leaf_of reg leaf; ok (leaf, e)

-- The variables of the second loop.
pub record Round : Type 0 where
  pub active : List Stage
  pub protection : List Allocation
  pub passed_over : List Stage
  pub granted : List Stage
  pub ledger : Ledger

abbrev pub ready_before : Stage → Stage → Bool
ready_before s t = key_before s.ready_seq t.ready_seq
  where
    key_before : Option ℕ → Option ℕ → Bool
    key_before (some m) (some n) = ltb m n || (eqb m n && text_before s.id t.id)
    key_before _ _ = false

abbrev pub earlier : Stage → Stage → Bool
earlier s t = number s.ready_seq t.ready_seq
  where
    number : Option ℕ → Option ℕ → Bool
    number (some m) (some n) = ltb m n
    number _ _ = false

-- The count of a stage that is ready longer and still waits goes up. Those not yet tried come
-- later in the order, so none of them has a smaller `ready_seq`.
unfoldable pub bypass : World → Stage → List Stage → Ledger → List Stage × Ledger
bypass w s [] l = ([], l)
bypass w s (t ∷ ts) l =
    if earlier t s
    then (let (t', l') = save w (record t { bypass_count = suc t.bypass_count }) l in
        let (ts', l'') = bypass w s ts l' in (t' ∷ ts', l''))
    else (let (ts', l') = bypass w s ts l in (t ∷ ts', l'))

-- The stage with its grant. Two tokens are drawn and the clock is read once.
unfoldable pub with_grant : World → Stage → Allocation → Dict String → Ledger → Stage
with_grant w s chosen incarnations l = record s {
  state = State.granted;
  allocation = chosen;
  epoch = suc s.epoch;
  launch_token = some (w.token l.draws);
  maintenance_token = some (w.token (suc l.draws));
  granted_at = some (now w l);
  reason = none;
  resource_incarnations = incarnations;
  granted_allocation = chosen;
  protection = none;
}

abbrev pub draw_tokens : Ledger → Ledger
draw_tokens l = record (tick l) { draws = suc (suc l.draws) }

-- The grant: the row, its event, the stages that it overtook.
unfoldable pub enact :
    World
    → Stage
    → Allocation
    → (incarnations : Dict String) → (capacities : Dict ℕ) → Round
    → Round
enact w s chosen incarnations capacities r =
    let (s', l) = save w (with_grant w s chosen incarnations r.ledger) (draw_tokens r.ledger) in
    let (passed, l') =
      bypass w s' r.passed_over (event w s.id (Notice.granted chosen s'.epoch capacities) l) in
    record r {
      active = r.active ++ s' ∷ [];
      passed_over = passed;
      granted = r.granted ++ s' ∷ [];
      ledger = l';
    }

unfoldable pub grant : World → Registry → Stage → Allocation → Round → Result Round
grant w reg s chosen r = do
  leaves ← traverse (with_leaf reg) (keys chosen)
  let incarnations = map (λ (leaf, e). (leaf, e.incarnation)) leaves
  let capacities = map (λ (leaf, e). (leaf, e.capacity)) leaves
  ok (enact w s chosen incarnations capacities r)

-- Beside the active allocations and the protections so far.
abbrev pub beside : Context → Dict ℕ → Round → Scope
beside cx counts r = record {
  registry = cx.registry;
  others = map (λ t. t.allocation) r.active ++ r.protection;
  excluded = cx.quarantine;
  priority = counts;
  required = [];
}

-- What the round does with the allocation found, or with none.
unfoldable pub tried : World → Context → Dict ℕ → Stage → Round → Option Allocation → Result Round
tried w cx counts s r (some a) = grant w cx.registry s a r
tried w cx counts s r none = do
  (s', protection, l) ← keep_waiting w cx counts s r.active r.protection r.ledger
  ok (record r { passed_over = r.passed_over ++ s' ∷ []; protection = protection; ledger = l })

-- One round of the second loop; `rest` is what is still to be tried.
unfoldable pub try_stage : World → Context → Stage → List Stage → Round → Result Round
try_stage w cx s rest r = do
  counts ← count_stages cx.registry (cx.idle ++ r.passed_over ++ rest) []
  chosen ← next (assignments (beside cx counts r) s.needs)
  tried w cx counts s r chosen

unfoldable pub try_all : World → Context → List Stage → Round → Result Round
try_all w cx [] r = ok r
try_all w cx (s ∷ ss) r = do r' ← try_stage w cx s ss r; try_all w cx ss r'

-- The leaves of stages that wait for recovery.
unfoldable pub quarantined : List Stage → List String
quarantined active =
    union_all (map (λ s. keys s.allocation) (filter (in_state State.recovery_required) active))

unfoldable pub distinct_requests : List Stage → List String
distinct_requests stages = union_all (map (λ s. s.request ∷ []) stages)

abbrev pub is_some {ℓ} : {A : Type ℓ} → Option A → Bool
is_some none = false
is_some (some a) = true

-- What the first loop leaves; the releases noted so far are taken up.
abbrev pub split_of : World → List String → Ledger → Split
split_of w unavailable l = first_pass w unavailable (active_stages l) (record l { released = [] })

abbrev pub context_of : World → List String → Ledger → Context
context_of w unavailable l = record {
  registry = l.registry;
  quarantine = quarantined (owners (active_stages l));
  released = l.released;
  previously_ready = map (λ s. s.id) (filter (λ s. is_some s.ready_seq) (active_stages l));
  idle = (split_of w unavailable l).idle;
}

abbrev pub opening : World → List String → Ledger → Round
opening w unavailable l = record {
  active = owners (active_stages l);
  protection = [];
  passed_over = [];
  granted = [];
  ledger = (split_of w unavailable l).ledger;
}

unfoldable pub schedule : World → List String → Ledger → Result (List Stage × Ledger)
schedule w unavailable l = do
  r ←
      try_all w (context_of w unavailable l) (sorted ready_before (split_of w unavailable l).ready)
        (opening w unavailable l)
  l' ← outcomes w (distinct_requests (active_stages l)) r.ledger
  ok (r.granted, l')
