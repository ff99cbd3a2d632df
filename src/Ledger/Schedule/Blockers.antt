-- ===== src/Ledger/Schedule/Blockers.antt =====
-- The list of blockers that `schedule` writes on a stage that waits.
use orchestrator_engine.Prelude.{
  String, ◌≡◌, refl, Bool, true, false, none, List, [], ◌∷◌, arith, All, lookup,
}
use orchestrator_engine.Result.{Result, ok, lazy_any}
use orchestrator_engine.Resources.Registry.{Registry}
use orchestrator_engine.Resources.Claims.{
  Claim, Allocation, over_capacity, occupied, fits, compatible,
}
use orchestrator_engine.Resources.Demands.{Demand, claim_of}
use orchestrator_engine.Ledger.State.{Stage}
use orchestrator_engine.Ledger.Schedule.Waiting.{characters, blocks_demand, blockers}

compatible-apart :
    (reg : Registry) (leaf : String) (c : Claim) (a : Allocation)
    → lookup leaf reg ≡ none
    → lookup leaf a ≡ none
    → compatible reg ((leaf, c) ∷ []) (a ∷ []) ≡ ok true
unfolding compatible over_capacity fits occupied
compatible-apart reg leaf c a unknown free = ground arith

lazy_any-false :
    {A : Type 0} (f : A → Result Bool) (xs : List A)
    → All (λ x. f x ≡ ok false) xs
    → lazy_any f xs ≡ ok false
unfolding lazy_any
lazy_any-false f [] h = refl
lazy_any-false f (x ∷ xs) (e, h) = rw (e, lazy_any-false f xs h) refl

All-map :
    {A : Type 0} (P Q : A → Type 0) (xs : List A) → ((x : A) → P x → Q x) → All P xs → All Q xs
All-map P Q [] f h = tt
All-map P Q (x ∷ xs) f (p, h) = (f x p, All-map P Q xs f h)

-- The text names no leaf: neither in the registry nor in the allocation.
abbrev IsNoLeaf : Registry → Stage → String → Type 0
IsNoLeaf reg t leaf = (lookup leaf reg ≡ none) × (lookup leaf t.allocation ≡ none)

-- Where no single character of the names that a stage asks for is itself the name of a registered
-- or held leaf, the blockers of that stage are none, whatever the active stages hold.
pub blockers-none :
    (reg : Registry) (ds : List Demand) (ts : List Stage)
    → All (λ t. All (λ d. All (IsNoLeaf reg t) (characters d.name)) ds) ts
    → blockers reg ds ts ≡ ok []
unfolding blockers blocks_demand
blockers-none reg ds [] h = refl
blockers-none reg ds (t ∷ ts) (free, h) =
    rw
      (
        lazy_any-false (blocks_demand reg t) ds (
            All-map _ _ ds
              (λ d apart. lazy_any-false _ (characters d.name) (
                All-map _ _ (characters d.name)
                  (λ leaf p. rw (compatible-apart reg leaf (claim_of d) t.allocation p.0 p.1) refl)
                  apart))
              free),
        blockers-none reg ds ts h,
      )
      refl
