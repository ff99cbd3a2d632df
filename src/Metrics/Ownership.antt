-- ===== src/Metrics/Ownership.antt =====
-- resource_metrics.py: the loop of `report` over the events of the ledger, which finds the
-- intervals in which a stage owned a leaf.
pub mod Window
use orchestrator_engine.Prelude.{
  ℕ, zero, suc, ◌+◌, ◌-◌, ◌*◌, String, Bool, true, false, not, ◌&&◌, Option, none, some, List, [],
  ◌∷◌, ◌++◌, ◌==◌, leb, if◌then◌else◌, contains, Dict, lookup, put,
}
use orchestrator_engine.Resources.Claims.{Mode, Claim, Allocation}
use orchestrator_engine.Ledger.State.{Notice, Event}
use orchestrator_engine.Metrics.Union.{Interval}

-- An entry of `owned`: since when, and with which weight.
pub record Owned : Type 0 where
  pub subject : String
  pub leaf : String
  pub since : ℕ
  pub weight : ℕ

-- What `intervals` and `units` hold of a leaf; they get their keys together.
pub record Spans : Type 0 where
  pub intervals : List Interval
  pub units : ℕ

-- The variables of the loop.
pub record Tally : Type 0 where
  pub owned : List Owned
  pub spans : Dict Spans
  pub releases : Dict ℕ
  pub latencies : Dict (List ℕ)
  pub invalid_clock : Bool

abbrev pub or_else {ℓ} : {A : Type ℓ} → A → Option A → A
or_else d none = d
or_else d (some a) = a

abbrev pub is_of : (subject leaf : String) → Owned → Bool
is_of subject leaf o = o.subject == subject && o.leaf == leaf

-- owned[subject, leaf] = ...
unfoldable pub set_owned : Owned → List Owned → List Owned
set_owned x [] = x ∷ []
set_owned x (o ∷ os) =
    let rest = set_owned x os in if is_of x.subject x.leaf o then x ∷ os else o ∷ rest

-- owned.pop((subject, leaf), (at, 0))
unfoldable pub drop_owned : (subject leaf : String) → List Owned → List Owned
drop_owned subject leaf [] = []
drop_owned subject leaf (o ∷ os) =
    let rest = drop_owned subject leaf os in if is_of subject leaf o then os else o ∷ rest

unfoldable pub owned_since : (subject leaf : String) → (at : ℕ) → List Owned → ℕ × ℕ
owned_since subject leaf at [] = (at, 0)
owned_since subject leaf at (o ∷ os) =
    let rest = owned_since subject leaf at os in
    if is_of subject leaf o then (o.since, o.weight) else rest

unfoldable pub weight_of : (capacities : Dict ℕ) → String → Claim → ℕ
weight_of capacities leaf claim = elim claim.mode [
  | Mode.exclusive ↦ or_else 1 (lookup leaf capacities)
  | Mode.shared ↦ claim.units
]

unfoldable pub add_latency : (at : ℕ) → String → Option ℕ → Dict (List ℕ) → Dict (List ℕ)
add_latency at leaf none ls = ls
add_latency at leaf (some released) ls =
    if leb released at
    then put leaf (or_else [] (lookup leaf ls) ++ (at - released) ∷ []) ls
    else ls

-- A "granted" event.
unfoldable pub grant_leaves :
    (at : ℕ) → (subject : String) → (capacities : Dict ℕ) → Allocation → Tally → Tally
grant_leaves at subject capacities [] t = t
grant_leaves at subject capacities ((leaf, claim) ∷ allocation) t =
    grant_leaves at subject capacities allocation (record t {
      owned =
          set_owned
            (record {
              subject = subject;
              leaf = leaf;
              since = at;
              weight = weight_of capacities leaf claim;
            })
            t.owned;
      latencies = add_latency at leaf (lookup leaf t.releases) t.latencies;
    })

unfoldable pub add_span : String → (since at weight : ℕ) → Dict Spans → Dict Spans
add_span leaf since at weight spans =
    let old = or_else (record { intervals = []; units = 0 }) (lookup leaf spans) in
    put leaf
      (record {
        intervals = old.intervals ++ (since, at) ∷ [];
        units = old.units + weight * (at - since);
      })
      spans

-- The end of an ownership: an interval, or a clock that went back.
unfoldable pub close : String → (at : ℕ) → ℕ × ℕ → Tally → Tally
close leaf at (since, weight) t =
    if leb since at
    then record t { spans = add_span leaf since at weight t.spans }
    else record t { invalid_clock = true }

unfoldable pub note_release : String → (at : ℕ) → ℕ × ℕ → Tally → Tally
note_release leaf at (since, weight) t =
    if leb since at then record t { releases = put leaf at t.releases } else t

-- A "finished" event.
unfoldable pub release_leaves : (at : ℕ) → (subject : String) → List String → Tally → Tally
release_leaves at subject [] t = t
release_leaves at subject (leaf ∷ leaves) t =
    let since = owned_since subject leaf at t.owned in
    release_leaves at subject leaves (
      note_release leaf at since
        (close leaf at since (record t { owned = drop_owned subject leaf t.owned })))

unfoldable pub read_notice : (at : ℕ) → (subject : String) → Notice → Tally → Tally
read_notice at subject (Notice.granted allocation epoch capacities) t =
    grant_leaves at subject capacities allocation t
read_notice at subject (Notice.finished outcome released evidence) t =
    release_leaves at subject released t
read_notice at subject notice t = t

-- The rows of `events`, of the stages asked for.
unfoldable pub read_events : (ids : List String) → List Event → Tally → Tally
read_events ids [] t = t
read_events ids (e ∷ es) t =
    read_events ids es (if contains ids e.subject then read_notice e.at e.subject e.notice t else t)

-- What is owned still, up to now.
unfoldable pub close_owned : (now : ℕ) → List Owned → Tally → Tally
close_owned now [] t = t
close_owned now (o ∷ os) t = close_owned now os (close o.leaf now (o.since, o.weight) t)

abbrev pub no_tally : Tally
no_tally = record { owned = []; spans = []; releases = []; latencies = []; invalid_clock = false }

unfoldable pub tally : (now : ℕ) → (ids : List String) → List Event → Tally
tally now ids events = let t = read_events ids events no_tally in close_owned now t.owned t
