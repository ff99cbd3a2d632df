-- ===== src/Metrics/Acceptance.antt =====
-- metrics/progress.py: _acceptance_states, _record_order, _acceptance_for_item, _is_accepted: whether
-- an item counts as accepted. The dict of states is a function of the key; the timestamps of a record
-- stand as numbers, and its field "data" is `body`.
pub mod Sources
use orchestrator_engine.Prelude.{
  ℕ, zero, suc, String, Bool, true, false, not, ◌&&◌, ◌||◌, Option, none, some, List, [], ◌∷◌, ◌==◌,
  eqb, ltb, leb, if◌then◌else◌, filter, Dict, put,
}
use orchestrator_engine.Json
use orchestrator_engine.Json.{Json, Fields}
use orchestrator_engine.Lease.Identity.{at}
use orchestrator_engine.Ledger.State.{values}
use orchestrator_engine.Resources.Alternatives.{text_before}

pub record Record : Type 0 where
  pub record_type : String
  pub source_id : String
  pub known_at : ℕ
  pub effective_at : ℕ
  pub observation_id : String
  pub body : Fields

abbrev pub Key : Type 0
Key = Json × Json × Json

-- isinstance(value, str) and value
abbrev pub is_name : Json → Bool
is_name (Json.str s) = not (s == "")
is_name _ = false

-- Whether _record_order puts the first strictly before the second.
unfoldable pub is_before : Record → Record → Bool
is_before a b =
    ltb a.known_at b.known_at
    || eqb a.known_at b.known_at
      && (ltb a.effective_at b.effective_at
          || eqb a.effective_at b.effective_at && text_before a.observation_id b.observation_id)

-- sorted(items, key=_record_order), which is stable.
unfoldable pub insert : Record → List Record → List Record
insert x [] = x ∷ []
insert x (y ∷ ys) = let rest = insert x ys in if is_before y x then y ∷ rest else x ∷ y ∷ ys

unfoldable pub sorted : List Record → List Record
sorted [] = []
sorted (x ∷ xs) = insert x (sorted xs)

-- max(items, key=_record_order): the first of the greatest.
unfoldable pub latest_from : Record → List Record → Record
latest_from best [] = best
latest_from best (x ∷ xs) = latest_from (if is_before best x then x else best) xs

unfoldable pub latest : List Record → Option Record
latest [] = none
latest (x ∷ xs) = some (latest_from x xs)

unfoldable pub has_evidence : Fields → Bool
has_evidence body = is_name (at "evidence_ref" body) || is_name (at "evidence_digest" body)

abbrev pub is_true : Json → Bool
is_true (Json.bool true) = true
is_true _ = false

unfoldable pub is_accepted : Option Record → Bool
is_accepted none = false
is_accepted (some r) = is_true (at "accepted" r.body) && has_evidence r.body

abbrev pub key_of : Fields → Key
key_of body = (at "work_item_id" body, at "scope_revision_id" body, at "criteria_revision" body)

abbrev pub is_key : Key → Bool
is_key (a, b, c) = is_name a && is_name b && is_name c

abbrev pub same_key : Key → Key → Bool
same_key (a, b, c) (a', b', c') = Json.eq a a' && Json.eq b b' && Json.eq c c'

-- Whether a record stands in the group of the key.
unfoldable pub is_for : Key → Record → Bool
is_for key r =
    r.record_type == "acceptance" && is_key (key_of r.body) && same_key (key_of r.body) key

unfoldable pub by_source : Dict Record → List Record → Dict Record
by_source d [] = d
by_source d (r ∷ rs) = by_source (put r.source_id r d) rs

abbrev pub or_list : List Record → List Record → List Record
or_list [] ys = ys
or_list (x ∷ xs) ys = x ∷ xs

unfoldable pub selected : List Record → Option Record
selected items =
    let current = values (by_source [] (sorted items)) in
    latest (or_list (filter (λ r. not (is_accepted (some r))) current) current)

unfoldable pub acceptance_states : List Record → Key → Option Record
acceptance_states records key = selected (filter (is_for key) records)

-- The item has these three keys.
unfoldable pub acceptance_for_item : (item : Fields) → (Key → Option Record) → Option Record
acceptance_for_item item acceptances = acceptances (key_of item)
