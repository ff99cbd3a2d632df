-- ===== src/Resources/Normalize/Normal.antt =====
-- What `normalize_registry` leaves in the dict of an entry, and what equality of dicts then says.
use orchestrator_engine.Prelude.{
  ℕ, String, ◌≡◌, refl, sym, ap, ◌∙◌, inl, inr, true, false, not, ◌||◌, ◌==◌, Option, none, some,
  List, [], arith, eq_iff, eqb, if◌then◌else◌, Bool-cases, All, subst, contains, length, keys,
  Option-cases, eq_of_some,
}
use orchestrator_engine.Json
use orchestrator_engine.Json.{Json, Fields, ℤ, int_eq, fields_in, size}
use orchestrator_engine.Result.{ok, guard, bad_alias, duplicate_physical, >>=-eq-ok, ok-injective}
use orchestrator_engine.Resources.Registry.{
  fields_of, identifier, positive, Kind, Entry, with_kind, Registry, update, check_release,
  normalize_leaf, members_of, is_alias, kind_of, normalize_selector, text_or_raise, normalize_entry,
  normalize_entries,
}
use orchestrator_engine.Resources.Normalize.{check_names, normalize_registry}

pub get-update :
    (j k : String) (v : Json) (fs : Fields)
    → Json.get j (update k v fs) ≡ (if k == j then some v else Json.get j fs)
unfolding update Json.get
get-update j k v Fields.end = refl
get-update j k v (Fields.field i w fs) =
    ground (arith, eq_iff k j, eq_iff i k, eq_iff i j, get-update j k v fs)

-- The dict of an entry says which kind it is, and the capacity of a resource.
abbrev pub IsNormalEntry : Entry → Type 0
IsNormalEntry (Entry.resource l) =
    (Json.get "kind" l.fields ≡ some (Json.str "resource"))
    × (Json.get "capacity" l.fields ≡ some (Json.num (ℤ.pos l.capacity)))
IsNormalEntry (Entry.selector k ms fs) =
    (s : String) × (Json.get "kind" fs ≡ some (Json.str s)) × (s == "resource" ≡ false)

abbrev pub IsNormal : Registry → Type 0
IsNormal = All λ e. IsNormalEntry e.1

abbrev updated_fields : String → ℕ → String → Fields → Fields
updated_fields key capacity incarnation fs = update "incarnation" (Json.str incarnation) (
    update "capacity" (Json.num (ℤ.pos capacity))
      (update "physical_id" (Json.str key) (update "kind" (Json.str "resource") fs)))

updated_kind :
    (key : String) (capacity : ℕ) (incarnation : String) (fs : Fields)
    → Json.get "kind" (updated_fields key capacity incarnation fs) ≡ some (Json.str "resource")
updated_kind key capacity incarnation fs =
    get-update "kind" "incarnation" _ _
    ∙ get-update "kind" "capacity" _ _
    ∙ get-update "kind" "physical_id" _ _
    ∙ get-update "kind" "kind" _ fs

updated_capacity :
    (key : String) (capacity : ℕ) (incarnation : String) (fs : Fields)
    → Json.get "capacity" (updated_fields key capacity incarnation fs)
      ≡ some (Json.num (ℤ.pos capacity))
updated_capacity key capacity incarnation fs =
    get-update "capacity" "incarnation" _ _ ∙ get-update "capacity" "capacity" _ _

normalize_leaf-IsNormalEntry :
    (physical seen : List String) (name : String) (fs : Fields) (e : Entry)
    → normalize_leaf physical name fs ≡ ok (seen, e)
    → IsNormalEntry e
unfolding normalize_leaf
normalize_leaf-IsNormalEntry physical seen name fs e h =
    let (key, _, h1) = >>=-eq-ok (identifier (Json.get_or "physical_id" (Json.str name) fs)) _ h in
    let (_, _, h2) = >>=-eq-ok (guard (not (contains physical key)) duplicate_physical) _ h1 in
    let (capacity, _, h3) =
      >>=-eq-ok (positive (Json.get_or "capacity" (Json.num (ℤ.pos 1)) fs)) _ h2 in
    let (incarnation, _, h4) =
      >>=-eq-ok (identifier (Json.get_or "incarnation" (Json.str "1") fs)) _ h3 in
    let (_, _, h5) = >>=-eq-ok (check_release (updated_fields key capacity incarnation fs)) _ h4 in
    subst IsNormalEntry (ap (λ p. p.1) (ok-injective h5))
      (updated_kind key capacity incarnation fs, updated_capacity key capacity incarnation fs)

with_kind-IsNormalEntry :
    (kind : String) (fs : Fields) (o : Option Kind) (e : Entry)
    → kind == "resource" ≡ false
    → with_kind kind fs o ≡ ok e
    → IsNormalEntry e
unfolding with_kind
with_kind-IsNormalEntry kind fs none e other h = cc
with_kind-IsNormalEntry kind fs (some k) e other h =
    let (names, _, h1) = >>=-eq-ok (members_of (Json.get_or "members" Json.null fs)) _ h in
    let (_, _, h2) = >>=-eq-ok (guard (not (is_alias k) || eqb (length names) 1) bad_alias) _ h1 in
    subst IsNormalEntry (ok-injective h2) (kind, get-update "kind" "kind" (Json.str kind) fs, other)

normalize_entry-IsNormalEntry :
    (physical seen : List String) (name : String) (v : Json) (e : Entry)
    → normalize_entry physical name v ≡ ok (seen, e)
    → IsNormalEntry e
unfolding normalize_entry normalize_selector
normalize_entry-IsNormalEntry physical seen name (Json.obj fs) e h =
    let (_, _, h1) = >>=-eq-ok (identifier (Json.str name)) _ h in
    let (kind, _, h2) =
      >>=-eq-ok (text_or_raise (Json.get_or "kind" (Json.str "resource") fs)) _ h1 in
    elim (Bool-cases (kind == "resource")) [
      | inl leaf ↦ normalize_leaf-IsNormalEntry physical seen name fs e (rw leaf at h2)
      | inr other ↦
          let (x, made, h3) = >>=-eq-ok (with_kind kind fs (kind_of kind)) _ (rw other at h2) in
          subst IsNormalEntry (ap (λ p. p.1) (ok-injective h3))
            (with_kind-IsNormalEntry kind fs (kind_of kind) x other made)
    ]
normalize_entry-IsNormalEntry physical seen name _ e h =
    let (_, _, h1) = >>=-eq-ok (identifier (Json.str name)) _ h in cc

normalize_entries-IsNormal :
    (physical : List String) (fs : Fields) (reg : Registry)
    → normalize_entries physical fs ≡ ok reg
    → IsNormal reg
unfolding normalize_entries
normalize_entries-IsNormal physical Fields.end reg h = subst IsNormal (ok-injective h) tt
normalize_entries-IsNormal physical (Fields.field name v fs) reg h =
    let ((seen, e), made, h1) = >>=-eq-ok (normalize_entry physical name v) _ h in
    let (rest, more, h2) = >>=-eq-ok (normalize_entries seen fs) _ h1 in
    subst IsNormal (ok-injective h2) (
      normalize_entry-IsNormalEntry physical seen name v e made,
      normalize_entries-IsNormal seen fs rest more,
    )

pub normalize_registry-IsNormal :
    (raw : Json) (reg : Registry) → normalize_registry raw ≡ ok reg → IsNormal reg
unfolding normalize_registry
normalize_registry-IsNormal (Json.obj raw) reg h =
    let (made, entries, h1) = >>=-eq-ok (normalize_entries [] raw) _ h in
    let (_, _, h2) = >>=-eq-ok (check_names made (keys made)) _ h1 in
    subst IsNormal (ok-injective h2) (normalize_entries-IsNormal [] raw made entries)
normalize_registry-IsNormal _ reg h = cc

-- What equal dicts say of one key.
fields_in-get :
    (k : String) (fs gs : Fields) (v : Json)
    → fields_in fs gs ≡ true
    → Json.get k fs ≡ some v
    → (w : Json) × (Json.get k gs ≡ some w) × (Json.eq v w ≡ true)
unfolding fields_in Json.get
fields_in-get k Fields.end gs v h e = cc
fields_in-get k (Fields.field j u fs) gs v h e = elim (Bool-cases (j == k)) [
  | inl same ↦ elim (Option-cases (Json.get k gs)) [
    | inl gone ↦ absurd (ground (arith, eq_iff j k))
    | inr (w, found) ↦ (w, found, ground (arith, eq_iff j k))
  ]
  | inr other ↦ fields_in-get k fs gs v (ground arith) (rw other at e)
]

fields_in-eq :
    (k : String) (fs gs : Fields) (v w : Json)
    → fields_in fs gs ≡ true
    → Json.get k fs ≡ some v
    → Json.get k gs ≡ some w
    → Json.eq v w ≡ true
fields_in-eq k fs gs v w h e f =
    let (x, found, same) = fields_in-get k fs gs v h e in
    subst (λ y. Json.eq v y ≡ true) (eq_of_some (sym found ∙ f)) same

-- Two entries with equal dicts are of one kind, and of one capacity.
abbrev pub Alike : Entry → Entry → Type 0
Alike (Entry.resource l) (Entry.resource m) = l.capacity ≡ m.capacity
Alike (Entry.selector k ms fs) (Entry.selector j ns gs) = Unit
Alike _ _ = ⊥

pub eq-Alike :
    (e f : Entry)
    → IsNormalEntry e
    → IsNormalEntry f
    → Json.eq (Json.obj (fields_of e)) (Json.obj (fields_of f)) ≡ true
    → Alike e f
unfolding Json.eq int_eq
eq-Alike (Entry.resource l) (Entry.resource m) (kind, capacity) (kind', capacity') h =
    eqb_eq l.capacity m.capacity
      (fields_in-eq "capacity" l.fields m.fields _ _ (ground arith) capacity capacity')
  where
    eqb_eq : (m n : ℕ) → eqb m n ≡ true → m ≡ n
    eqb_eq m n e = ground arith
eq-Alike (Entry.resource l) (Entry.selector j ns gs) (kind, capacity) (s, kind', other) h =
    absurd (other_kind s other (fields_in-eq "kind" l.fields gs _ _ (ground arith) kind kind'))
  where
    other_kind : (s : String) → s == "resource" ≡ false → "resource" == s ≡ true → ⊥
    other_kind s e h = ground (arith, eq_iff s "resource", eq_iff "resource" s)
eq-Alike (Entry.selector k ms fs) (Entry.resource m) (s, kind, other) (kind', capacity) h =
    absurd
      (true-false (sym (fields_in-eq "kind" fs m.fields _ _ (ground arith) kind kind') ∙ other))
  where
    true-false : true ≡ false → ⊥
    true-false q = cc
eq-Alike (Entry.selector k ms fs) (Entry.selector j ns gs) a b h = tt
