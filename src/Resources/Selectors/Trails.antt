-- ===== src/Resources/Selectors/Trails.antt =====
-- The fuel of the selectors is enough: a trail has no name twice, and only names of the registry.
use orchestrator_engine.Prelude.{
  ℕ, zero, suc, ◌+◌, ◌≤◌, String, ◌≡◌, refl, ◌∙◌, ◌≢◌, ◌⊎◌, inl, inr, true, false, Option, none,
  some, List, [], ◌∷◌, ◌==◌, arith, eq_iff, contains, length, lookup, remove, lookup-remove,
  Bool-cases, if◌then◌else◌,
}
use orchestrator_engine.Result.{
  exhausted, Result, ok, err, ◌>>=◌, unknown_or_cyclic, IsSpared, Gen, Spares, raising,
}
use orchestrator_engine.Json.{Fields}
use orchestrator_engine.Resources.Registry.{Registry, Entry, Leaf, Kind}
use orchestrator_engine.Resources.Selectors.{enter}

abbrev pub IsTrail : Registry → List String → Type 0
IsTrail reg [] = Unit
IsTrail reg (n ∷ ns) =
    (contains ns n ≡ false) × ((e : Entry) × (lookup n reg ≡ some e)) × IsTrail reg ns

remove-length : (n : String) (reg : Registry) → length (remove n reg) ≤ length reg
unfolding remove
remove-length n [] = omega arith
remove-length n ((k, e) ∷ reg) = ground (arith, remove-length n reg)

remove-shorter :
    (n : String) (reg : Registry) (e : Entry)
    → lookup n reg ≡ some e
    → suc (length (remove n reg)) ≤ length reg
unfolding remove lookup
remove-shorter n [] e h = cc
remove-shorter n ((k, x) ∷ reg) e h = elim (Bool-cases (k == n)) [
  | inl same ↦ rw same (omega (arith, remove-length n reg))
  | inr other ↦ rw other (omega (arith, remove-shorter n reg e (rw other at h)))
]

IsTrail-remove :
    (n : String) (reg : Registry) (ns : List String)
    → contains ns n ≡ false
    → IsTrail reg ns
    → IsTrail (remove n reg) ns
IsTrail-remove n reg [] new h = tt
IsTrail-remove n reg (m ∷ ns) new (apart, (e, found), h) =
    (apart, (e, lookup-remove n m reg ∙ kept), IsTrail-remove n reg ns (ground arith) h)
  where
    kept : (if n == m then none else lookup m reg) ≡ some e
    kept = ground (arith, eq_iff n m, eq_iff m n)

-- Distinct names of the registry are no more than it has entries.
pub IsTrail-length : (reg : Registry) (ns : List String) → IsTrail reg ns → length ns ≤ length reg
IsTrail-length reg [] h = omega arith
IsTrail-length reg (n ∷ ns) (apart, (e, found), h) = omega (
  arith,
  remove-shorter n reg e found,
  IsTrail-length (remove n reg) ns (IsTrail-remove n reg ns apart h),
)

pub unknown-exhausted : unknown_or_cyclic ≢ exhausted
unknown-exhausted e = cc

-- With fuel for the names that a trail leaves, no call runs out of it.
abbrev pub IsEnough : Registry → ℕ → List String → Type 0
IsEnough reg fuel trail = IsTrail reg trail × (suc (length reg) ≤ fuel + length trail)

pub no_fuel : (reg : Registry) (trail : List String) → IsEnough reg zero trail → ⊥
no_fuel reg trail (h, enough) = omega (arith, enough, IsTrail-length reg trail h)

enter-cases :
    (reg : Registry) (name : String) (trail : List String) (o : Option Entry)
    → lookup name reg ≡ o
    → (contains trail name ≡ true) ⊎ ((contains trail name ≡ false))
    → (enter reg name trail ≡ err unknown_or_cyclic)
      ⊎ ((e : Entry) × (enter reg name trail ≡ ok e)
          × (contains trail name ≡ false)
          × (lookup name reg ≡ some e))
unfolding enter
enter-cases reg name trail o found (inl again) = inl (rw again refl)
enter-cases reg name trail none found (inr new) = inl (rw (new, found) refl)
enter-cases reg name trail (some e) found (inr new) = inr (e, rw (new, found) refl, new, found)

-- What follows the entry of a name is spared where it is at a resource, and at a selector with the
-- name on its trail.
module _ (reg : Registry) (fuel : ℕ) (name : String) (trail : List String)
    (enough : IsEnough reg (suc fuel) trail) where
  abbrev Deeper : Type 0
  Deeper = IsEnough reg fuel (name ∷ trail)

  deeper : (e : Entry) → contains trail name ≡ false → lookup name reg ≡ some e → Deeper
  deeper e new found = ((new, (e, found), enough.0), omega (arith, enough.1))

  pub enter-IsSpared {ℓ} :
      {B : Type ℓ} (k : Entry → Result B)
      → ((l : Leaf) → IsSpared (k (Entry.resource l)))
      → ((kind : Kind) (ms : List String) (fs : Fields)
          → Deeper
          → IsSpared (k (Entry.selector kind ms fs)))
      → IsSpared (enter reg name trail >>= k)
  enter-IsSpared k leaf member =
      elim (enter-cases reg name trail (lookup name reg) refl (Bool-cases (contains trail name))) [
        | inl cyclic ↦ rw cyclic unknown-exhausted
        | inr (e, entered, new, found) ↦ rw entered (entry e (deeper e new found))
      ]
    where
      entry : (e : Entry) → Deeper → IsSpared (k e)
      entry (Entry.resource l) d = leaf l
      entry (Entry.selector kind ms fs) d = member kind ms fs d

  pub enter-Spares {ℓ} :
      {B : Type ℓ} (k : Entry → Gen B)
      → ((l : Leaf) → Spares (k (Entry.resource l)))
      → ((kind : Kind) (ms : List String) (fs : Fields)
          → Deeper
          → Spares (k (Entry.selector kind ms fs)))
      → Spares (raising (enter reg name trail) k)
  enter-Spares k leaf member =
      elim (enter-cases reg name trail (lookup name reg) refl (Bool-cases (contains trail name))) [
        | inl cyclic ↦ rw cyclic unknown-exhausted
        | inr (e, entered, new, found) ↦ rw entered (entry e (deeper e new found))
      ]
    where
      entry : (e : Entry) → Deeper → Spares (k e)
      entry (Entry.resource l) d = leaf l
      entry (Entry.selector kind ms fs) d = member kind ms fs d
