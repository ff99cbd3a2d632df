-- ===== src/Resources/Normalize/Physical.antt =====
-- What `normalize_registry` says of the physical identities.
use orchestrator_engine.Prelude.{
  String, ◌≡◌, refl, subst, inl, inr, true, false, not, ◌||◌, ◌==◌, Option, none, some, List, [],
  ◌∷◌, ◌++◌, arith, eq_iff, eqb, Bool-cases, all, contains, length, keys,
}
use orchestrator_engine.Json
use orchestrator_engine.Json.{Json, Fields, ℤ}
use orchestrator_engine.Result.{
  ok, guard, bad_alias, duplicate_physical, >>=-eq-ok, ok-injective, guard-eq-ok,
}
use orchestrator_engine.Resources.Registry.{
  identifier, positive, Kind, Entry, Registry, check_release, normalize_leaf, distinct, members_of,
  is_alias, with_kind, kind_of, normalize_selector, text_or_raise, normalize_entry,
  normalize_entries,
}
use orchestrator_engine.Resources.Normalize.{check_names, normalize_registry}

abbrev pub entry_ids : Entry → List String
entry_ids (Entry.resource l) = l.physical_id ∷ []
entry_ids (Entry.selector k ms fs) = []

abbrev pub physical_ids : Registry → List String
physical_ids [] = []
physical_ids ((name, e) ∷ reg) = entry_ids e ++ physical_ids reg

-- The identities of an entry are new, and are then among those seen.
abbrev Adds : List String → List String → Entry → Type 0
Adds physical seen e =
    (seen ≡ entry_ids e ++ physical) × (all (λ k. not (contains physical k)) (entry_ids e) ≡ true)

abbrev AddsPair : List String → List String × Entry → Type 0
AddsPair physical (seen, e) = Adds physical seen e

normalize_leaf-Adds :
    (physical : List String) (name : String) (fs : Fields) (p : List String × Entry)
    → normalize_leaf physical name fs ≡ ok p
    → AddsPair physical p
unfolding normalize_leaf
normalize_leaf-Adds physical name fs p h =
    let (key, _, h1) = >>=-eq-ok (identifier (Json.get_or "physical_id" (Json.str name) fs)) _ h in
    let (_, new, h2) = >>=-eq-ok (guard (not (contains physical key)) duplicate_physical) _ h1 in
    let (capacity, _, h3) =
      >>=-eq-ok (positive (Json.get_or "capacity" (Json.num (ℤ.pos 1)) fs)) _ h2 in
    let (incarnation, _, h4) =
      >>=-eq-ok (identifier (Json.get_or "incarnation" (Json.str "1") fs)) _ h3 in
    let (_, _, h5) = >>=-eq-ok (check_release _) _ h4 in
    subst (AddsPair physical) (ok-injective h5) (refl, rw (guard-eq-ok _ _ new) refl)

with_kind-Adds :
    (physical : List String) (kind : String) (fs : Fields) (o : Option Kind) (e : Entry)
    → with_kind kind fs o ≡ ok e
    → Adds physical physical e
unfolding with_kind
with_kind-Adds physical kind fs none e h = cc
with_kind-Adds physical kind fs (some k) e h =
    let (names, _, h1) = >>=-eq-ok (members_of (Json.get_or "members" Json.null fs)) _ h in
    let (_, _, h2) = >>=-eq-ok (guard (not (is_alias k) || eqb (length names) 1) bad_alias) _ h1 in
    subst (Adds physical physical) (ok-injective h2) (refl, refl)

normalize_entry-Adds :
    (physical : List String) (name : String) (v : Json) (p : List String × Entry)
    → normalize_entry physical name v ≡ ok p
    → AddsPair physical p
unfolding normalize_entry normalize_selector
normalize_entry-Adds physical name (Json.obj fs) p h =
    let (_, _, h1) = >>=-eq-ok (identifier (Json.str name)) _ h in
    let (kind, _, h2) =
      >>=-eq-ok (text_or_raise (Json.get_or "kind" (Json.str "resource") fs)) _ h1 in
    elim (Bool-cases (kind == "resource")) [
      | inl leaf ↦ normalize_leaf-Adds physical name fs p (rw leaf at h2)
      | inr other ↦
          let (x, made, h3) = >>=-eq-ok (with_kind kind fs (kind_of kind)) _ (rw other at h2) in
          subst (AddsPair physical) (ok-injective h3)
            (with_kind-Adds physical kind fs (kind_of kind) x made)
    ]
normalize_entry-Adds physical name _ p h =
    let (_, _, h1) = >>=-eq-ok (identifier (Json.str name)) _ h in cc

-- None of these stands among those.
abbrev IsNewTo : List String → List String → Type 0
IsNewTo physical ids = all (λ k. not (contains physical k)) ids ≡ true

IsNewTo-cons :
    (key : String) (physical ids : List String)
    → IsNewTo (key ∷ physical) ids
    → (contains ids key ≡ false) × IsNewTo physical ids
IsNewTo-cons key physical [] h = (refl, refl)
IsNewTo-cons key physical (x ∷ ids) h =
    let (apart, new) = IsNewTo-cons key physical ids (ground arith) in
    (ground (arith, eq_iff key x, eq_iff x key), ground arith)

IsDistinct-append :
    (e : Entry) (physical seen ids : List String)
    → Adds physical seen e
    → distinct ids ≡ true
    → IsNewTo seen ids
    → (distinct (entry_ids e ++ ids) ≡ true) × IsNewTo physical (entry_ids e ++ ids)
unfolding distinct
IsDistinct-append (Entry.resource l) physical seen ids (grown, fresh) d new =
    let (apart, rest) =
      IsNewTo-cons l.physical_id physical ids (subst (λ s. IsNewTo s ids) grown new) in
    (ground arith, ground arith)
IsDistinct-append (Entry.selector k ms fs) physical seen ids (grown, fresh) d new =
    (d, subst (λ s. IsNewTo s ids) grown new)

normalize_entries-distinct :
    (physical : List String) (fs : Fields) (reg : Registry)
    → normalize_entries physical fs ≡ ok reg
    → (distinct (physical_ids reg) ≡ true) × IsNewTo physical (physical_ids reg)
unfolding normalize_entries distinct
normalize_entries-distinct physical Fields.end reg h =
    subst (λ r. (distinct (physical_ids r) ≡ true) × IsNewTo physical (physical_ids r))
      (ok-injective h) (refl, refl)
normalize_entries-distinct physical (Fields.field name v fs) reg h =
    let ((seen, e), made, h1) = >>=-eq-ok (normalize_entry physical name v) _ h in
    let (rest, more, h2) = >>=-eq-ok (normalize_entries seen fs) _ h1 in
    let (d, new) = normalize_entries-distinct seen fs rest more in
    subst (λ r. (distinct (physical_ids r) ≡ true) × IsNewTo physical (physical_ids r))
      (ok-injective h2)
      (IsDistinct-append e physical seen (physical_ids rest)
        (normalize_entry-Adds physical name v (seen, e) made) d new)

-- No two resources of a normalized registry have the same physical identity.
pub normalize_registry-distinct :
    (raw : Json) (reg : Registry)
    → normalize_registry raw ≡ ok reg
    → distinct (physical_ids reg) ≡ true
unfolding normalize_registry
normalize_registry-distinct (Json.obj raw) reg h =
    let (made, entries, h1) = >>=-eq-ok (normalize_entries [] raw) _ h in
    let (_, _, h2) = >>=-eq-ok (check_names made (keys made)) _ h1 in
    subst (λ r. distinct (physical_ids r) ≡ true) (ok-injective h2)
      (normalize_entries-distinct [] raw made entries).0
normalize_registry-distinct _ reg h = cc
