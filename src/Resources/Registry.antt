-- ===== src/Resources/Registry.antt =====
-- resource_queue.py: the scalar checks, and `normalize_registry` up to its last loop, which needs
-- the selectors.
use Prim.Native.String.{count}
use orchestrator_engine.Prelude.{
  ℕ, zero, suc, String, Bool, true, false, not, ◌&&◌, ◌||◌, Option, none, some, List, [], ◌∷◌, ◌==◌,
  ltb, eqb, if◌then◌else◌, contains, length, Dict,
}
use orchestrator_engine.Json
use orchestrator_engine.Json.{Json, Fields, Items, ℤ}
use orchestrator_engine.Result.{
  Result, ok, err, ◌>>=◌, ◌>>◌, guard, traverse, bad_identifier, bad_positive, bad_entry,
  duplicate_physical, bad_release, missing_probe, bad_members, bad_alias, bad_kind,
  unknown_or_cyclic,
}

unfoldable pub identifier : Json → Result String
identifier (Json.str s) =
    if s == "" then err bad_identifier else if ltb 160 (count s) then err bad_identifier else ok s
identifier _ = err bad_identifier

unfoldable pub positive : Json → Result ℕ
positive (Json.num (ℤ.pos zero)) = err bad_positive
positive (Json.num (ℤ.pos (suc n))) = ok (suc n)
positive _ = err bad_positive

pub data Kind : Type 0 where
  alias pool bundle : Kind

-- A normalized entry. `fields` is the whole dict; the other fields are the parts that the program
-- reads again.
pub record Leaf : Type 0 where
  pub physical_id : String
  pub capacity : ℕ
  pub incarnation : String
  pub recovery_group : Json
  pub fields : Fields

pub data Entry : Type 0 where
  resource : Leaf → Entry
  selector : Kind → List String → Fields → Entry

abbrev pub Registry : Type 0
Registry = Dict Entry

abbrev pub fields_of : Entry → Fields
fields_of (resource l) = l.fields
fields_of (selector k ms fs) = fs

-- entry.update(key=value)
unfoldable pub update : String → Json → Fields → Fields
update k v Fields.end = Fields.field k v Fields.end
update k v (Fields.field j w fs) =
    if j == k then Fields.field k v fs else Fields.field j w (update k v fs)

-- Python's truth of a value.
unfoldable pub truthy : Json → Bool
truthy Json.null = false
truthy (Json.bool b) = b
truthy (Json.num (ℤ.pos zero)) = false
truthy (Json.decimal (ℤ.pos zero) e) = false
truthy (Json.str s) = not (s == "")
truthy (Json.arr Items.nil) = false
truthy (Json.obj Fields.end) = false
truthy _ = true

abbrev pub is_text : Json → String → Bool
is_text (Json.str s) t = s == t
is_text _ t = false

-- `entry["release"] == "probe" and not entry.get("probe")` is refused.
unfoldable pub check_release : Fields → Result (Unit {0})
check_release fs =
    let release = Json.get_or "release" Json.null fs in
    do
      guard (is_text release "process" || is_text release "probe") bad_release
      guard (not (is_text release "probe" && not (truthy (Json.get_or "probe" Json.null fs))))
          missing_probe

-- The branch of `kind == "resource"`; `physical` is the set of identities so far.
unfoldable pub normalize_leaf : List String → String → Fields → Result (List String × Entry)
normalize_leaf physical name fs = do
  key ← identifier (Json.get_or "physical_id" (Json.str name) fs)
  guard (not (contains physical key)) duplicate_physical
  capacity ← positive (Json.get_or "capacity" (Json.num (ℤ.pos 1)) fs)
  incarnation ← identifier (Json.get_or "incarnation" (Json.str "1") fs)
  let updated = update "incarnation" (Json.str incarnation) (
      update "capacity" (Json.num (ℤ.pos capacity))
        (update "physical_id" (Json.str key) (update "kind" (Json.str "resource") fs)))
  check_release updated
  ok (
    key ∷ physical,
    Entry.resource (record {
      physical_id = key;
      capacity = capacity;
      incarnation = incarnation;
      recovery_group = Json.get_or "recovery_group" Json.null fs;
      fields = updated;
    }),
  )

-- A member that is no text is in no registry, and is refused here.
unfoldable pub member : Json → Result String
member (Json.str s) = ok s
member _ = err unknown_or_cyclic

unfoldable pub distinct : List String → Bool
distinct [] = true
distinct (x ∷ xs) = not (contains xs x) && distinct xs

unfoldable pub members_of : Json → Result (List String)
members_of (Json.arr vs) = do
  names ← traverse member (Json.to_list vs)
  guard (not (eqb (length names) 0) && distinct names) bad_members
  ok names
members_of _ = err bad_members

unfoldable pub kind_of : String → Option Kind
kind_of s =
    if s == "alias"
    then some Kind.alias
    else if s == "pool"
    then some Kind.pool
    else if s == "bundle"
    then some Kind.bundle
    else none

unfoldable pub is_alias : Kind → Bool
is_alias Kind.alias = true
is_alias _ = false

unfoldable pub with_kind : String → Fields → Option Kind → Result Entry
with_kind kind fs none = err bad_kind
with_kind kind fs (some k) = do
  names ← members_of (Json.get_or "members" Json.null fs)
  guard (not (is_alias k) || eqb (length names) 1) bad_alias
  ok (Entry.selector k names (update "kind" (Json.str kind) fs))

unfoldable pub normalize_selector : String → Fields → Result Entry
normalize_selector kind fs = with_kind kind fs (kind_of kind)

unfoldable pub text_or_raise : Json → Result String
text_or_raise (Json.str s) = ok s
text_or_raise _ = err bad_kind

-- One round of the first loop.
unfoldable pub normalize_entry : List String → String → Json → Result (List String × Entry)
normalize_entry physical name (Json.obj fs) = do
  identifier (Json.str name)
  kind ← text_or_raise (Json.get_or "kind" (Json.str "resource") fs)
  if kind == "resource"
      then normalize_leaf physical name fs
      else do e ← normalize_selector kind fs; ok (physical, e)
normalize_entry physical name _ = do identifier (Json.str name); err bad_entry

unfoldable pub normalize_entries : List String → Fields → Result Registry
normalize_entries physical Fields.end = ok []
normalize_entries physical (Fields.field name v fs) = do
  (physical', e) ← normalize_entry physical name v
  rest ← normalize_entries physical' fs
  ok ((name, e) ∷ rest)
