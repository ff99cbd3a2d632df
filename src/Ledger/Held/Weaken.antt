-- ===== src/Ledger/Held/Weaken.antt =====
-- A claim that fits beside many holders fits beside the first of them.
use orchestrator_engine.Prelude.{
  ◌+◌, String, ◌≡◌, refl, Bool, true, ◌||◌, List, [], ◌∷◌, ◌++◌, arith, any,
}
use orchestrator_engine.Result.{ok}
use orchestrator_engine.Resources.Registry.{Registry}
use orchestrator_engine.Resources.Claims.{
  Claim, Allocation, occupied, total_units, clashes, fits, compatible,
}
use orchestrator_engine.Ledger.Held.Bags.{occupied-append}

any-append : (p : Claim → Bool) (xs ys : List Claim) → any p (xs ++ ys) ≡ any p xs || any p ys
any-append p [] ys = refl
any-append p (x ∷ xs) ys = ground (arith, any-append p xs ys)

total_units-append : (xs ys : List Claim) → total_units (xs ++ ys) ≡ total_units xs + total_units ys
unfolding total_units
total_units-append [] ys = omega arith
total_units-append (x ∷ xs) ys = omega (arith, total_units-append xs ys)

fits-append :
    (reg : Registry) (leaf : String) (c : Claim) (xs ys : List Claim)
    → fits reg leaf c (xs ++ ys) ≡ ok true
    → fits reg leaf c xs ≡ ok true
unfolding fits
fits-append reg leaf c [] ys h = refl
fits-append reg leaf c (x ∷ xs) ys h =
    ground (arith, any-append (clashes c) (x ∷ xs) ys, total_units-append (x ∷ xs) ys)

pub compatible-append :
    (reg : Registry) (a : Allocation) (xs ys : List Allocation)
    → compatible reg a (xs ++ ys) ≡ ok true
    → compatible reg a xs ≡ ok true
unfolding compatible
compatible-append reg [] xs ys h = refl
compatible-append reg ((leaf, c) ∷ a) xs ys h = ground (
  arith,
  occupied-append leaf xs ys,
  fits-append reg leaf c (occupied leaf xs) (occupied leaf ys),
  compatible-append reg a xs ys,
)
