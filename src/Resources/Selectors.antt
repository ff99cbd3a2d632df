-- ===== src/Resources/Selectors.antt =====
-- resource_queue.py: selectors (aliases, pools and bundles of other selectors) and the choices of
-- leaves that satisfy them. A call that follows a member carries the names on the way to it.
pub mod Trails
use orchestrator_engine.Prelude.{
  ℕ, zero, suc, String, Bool, false, not, List, [], ◌∷◌, ◌++◌, if◌then◌else◌, contains, any, all,
  lookup,
}
use orchestrator_engine.Result.{
  Result, ok, err, ◌>>=◌, or_raise, traverse, lazy_any, lazy_all, unknown_or_cyclic, exhausted,
}
use orchestrator_engine.Resources.Registry.{Registry, Entry, Kind}
use orchestrator_engine.Resources.Claims.{Claim, Allocation, compatible}

-- `if name in trail or name not in registry: raise`
unfoldable pub enter : Registry → String → List String → Result Entry
enter reg name trail =
    if contains trail name
    then err unknown_or_cyclic
    else or_raise unknown_or_cyclic (lookup name reg)

-- A set of names is a list without repetition.
unfoldable pub union : List String → List String → List String
union xs [] = xs
union xs (y ∷ ys) = union (if contains xs y then xs else xs ++ y ∷ []) ys

unfoldable pub union_all : List (List String) → List String
union_all [] = []
union_all (xs ∷ xss) = union xs (union_all xss)

-- The fuel counts the members entered on the way. A trail has no name twice and only registered
-- ones, so callers give one more than the names of the registry.
unfoldable pub selector_leaves : ℕ → Registry → String → List String → Result (List String)
selector_leaves zero reg name trail = err exhausted
selector_leaves (suc fuel) reg name trail = do
  e ← enter reg name trail
  elim e [
    | Entry.resource l ↦ ok (name ∷ [])
    | Entry.selector k ms fs ↦ do
      leaves ← traverse (λ m. selector_leaves fuel reg m (name ∷ trail)) ms
      ok (union_all leaves)
  ]

-- any(...) for an alias or a pool, all(...) for a bundle
unfoldable pub combined : Kind → List Bool → Bool
combined Kind.bundle bs = all (λ b. b) bs
combined _ bs = any (λ b. b) bs

unfoldable pub selector_available : ℕ → Registry → List String → String → List String → Result Bool
selector_available zero reg excluded name trail = err exhausted
selector_available (suc fuel) reg excluded name trail = do
  e ← enter reg name trail
  elim e [
    | Entry.resource l ↦ ok (not (contains excluded name))
    | Entry.selector k ms fs ↦ do
      available ← traverse (λ m. selector_available fuel reg excluded m (name ∷ trail)) ms
      ok (combined k available)
  ]

-- Every member can satisfy the claim beside the allocations `others`; the members behind a
-- deciding one are not looked at.
unfoldable pub lazy_combined {ℓ} : {A : Type ℓ} → Kind → (A → Result Bool) → List A → Result Bool
lazy_combined Kind.bundle f ms = lazy_all f ms
lazy_combined _ f ms = lazy_any f ms

unfoldable pub leaf_claim_available :
    Registry → Claim → List Allocation → List String → String → Result Bool
leaf_claim_available reg claim others excluded name =
    if contains excluded name then ok false else compatible reg ((name, claim) ∷ []) others

unfoldable pub selector_claim_available :
    ℕ → Registry → Claim → List Allocation → List String → String → List String → Result Bool
selector_claim_available zero reg claim others excluded name trail = err exhausted
selector_claim_available (suc fuel) reg claim others excluded name trail = do
  e ← enter reg name trail
  elim e [
    | Entry.resource l ↦ leaf_claim_available reg claim others excluded name
    | Entry.selector k ms fs ↦
        lazy_combined k
          (λ m. selector_claim_available fuel reg claim others excluded m (name ∷ trail)) ms
  ]
