-- ===== src/Resources/Alternatives/Ends.antt =====
-- The calls that follow selectors never run out of fuel.
use orchestrator_engine.Prelude.{
  ℕ, zero, suc, String, inl, inr, Bool, true, false, not, Option, none, some, List, [], ◌∷◌, arith,
  contains, Dict, Bool-cases, if◌then◌else◌, any, ltb, lookup, ◌||◌,
}
use orchestrator_engine.Result.{
  Result, ok, ◌>>=◌, traverse, IsSpared, Gen, stop, fail, yield, Spares, raising, >>=-IsSpared,
  raising-Spares, traverse-IsSpared, lazy_any-IsSpared, lazy_all-IsSpared, each-Spares,
  for_each-Spares,
}
use orchestrator_engine.Resources.Registry.{Registry, Entry, Leaf, Kind}
use orchestrator_engine.Resources.Claims.{
  Claim, Allocation, capacity_of, over_capacity, fits, occupied, compatible, is_shared, clashes,
}
use orchestrator_engine.Resources.Selectors.{
  union, selector_leaves, selector_available, lazy_combined, leaf_claim_available,
  selector_claim_available,
}
use orchestrator_engine.Resources.Selectors.Trails.{
  IsTrail, IsEnough, no_fuel, enter-IsSpared, enter-Spares,
}
use orchestrator_engine.Resources.Alternatives.{
  Choice, depth, member_key, ordered_members, unseen, same_choice, disjoint, combine, choices,
  alternatives,
}

module _ (reg : Registry) where
  leaves-IsSpared :
      (fuel : ℕ) (name : String) (trail : List String)
      → IsEnough reg fuel trail
      → IsSpared (selector_leaves fuel reg name trail)
  unfolding selector_leaves
  leaves-IsSpared zero name trail h = absurd (no_fuel reg trail h)
  leaves-IsSpared (suc fuel) name trail h =
      enter-IsSpared reg fuel name trail h _ (λ l. tt)
        (λ kind ms fs d.
          >>=-IsSpared (traverse (λ m. selector_leaves fuel reg m (name ∷ trail)) ms) _
            (traverse-IsSpared _ ms (λ m. leaves-IsSpared fuel m (name ∷ trail) d)) (λ xs e. tt))

  available-IsSpared :
      (fuel : ℕ) (excluded : List String) (name : String) (trail : List String)
      → IsEnough reg fuel trail
      → IsSpared (selector_available fuel reg excluded name trail)
  unfolding selector_available
  available-IsSpared zero excluded name trail h = absurd (no_fuel reg trail h)
  available-IsSpared (suc fuel) excluded name trail h =
      enter-IsSpared reg fuel name trail h _ (λ l. tt)
        (λ kind ms fs d.
          >>=-IsSpared (traverse (λ m. selector_available fuel reg excluded m (name ∷ trail)) ms) _
            (traverse-IsSpared _ ms (λ m. available-IsSpared fuel excluded m (name ∷ trail) d))
            (λ xs e. tt))

  pub capacity-IsSpared : (o : Option Entry) → IsSpared (capacity_of o)
  capacity-IsSpared none = λ e. cc
  capacity-IsSpared (some (Entry.resource l)) = tt
  capacity-IsSpared (some (Entry.selector k ms fs)) = λ e. cc

  over_capacity-IsSpared : (leaf : String) (c : Claim) → IsSpared (over_capacity reg leaf c)
  unfolding over_capacity
  over_capacity-IsSpared leaf c = go (lookup leaf reg)
    where
      go :
          (o : Option Entry)
          → IsSpared (elim o [
            | none ↦ ok false
            | some e ↦ do capacity ← capacity_of (some e); ok (ltb capacity c.units)
          ])
      go none = tt
      go (some e) = >>=-IsSpared (capacity_of (some e)) _ (capacity-IsSpared (some e)) (λ n q. tt)

  fits-IsSpared : (leaf : String) (c : Claim) (cs : List Claim) → IsSpared (fits reg leaf c cs)
  unfolding fits
  fits-IsSpared leaf c [] = tt
  fits-IsSpared leaf c (d ∷ cs) =
      elim (Bool-cases (not (is_shared c.mode) || any (clashes c) (d ∷ cs))) [
        | inl out ↦ rw out tt
        | inr beside ↦ rw beside (
            >>=-IsSpared (capacity_of (lookup leaf reg)) _ (capacity-IsSpared (lookup leaf reg))
              (λ n q. tt))
      ]

  pub compatible-IsSpared :
      (a : Allocation) (others : List Allocation) → IsSpared (compatible reg a others)
  unfolding compatible
  compatible-IsSpared [] others = tt
  compatible-IsSpared ((leaf, c) ∷ a) others =
      >>=-IsSpared (over_capacity reg leaf c) _ (over_capacity-IsSpared leaf c)
        (λ over q. inside over (compatible-IsSpared a others))
    where
      last :
          (fit : Bool)
          → IsSpared (compatible reg a others)
          → IsSpared (elim fit [ true ↦ compatible reg a others | false ↦ ok false ])
      last true h = h
      last false h = tt

      inside :
          (over : Bool)
          → IsSpared (compatible reg a others)
          → IsSpared (elim over [
            | true ↦ ok false
            | false ↦ do
              fit ← fits reg leaf c (occupied leaf others)
              elim fit [ true ↦ compatible reg a others | false ↦ ok false ]
          ])
      inside true h = tt
      inside false h =
          >>=-IsSpared (fits reg leaf c (occupied leaf others)) _ (fits-IsSpared leaf c _)
            (λ fit q. last fit h)

  leaf_claim-IsSpared :
      (c : Claim) (others : List Allocation) (excluded : List String) (name : String)
      → IsSpared (leaf_claim_available reg c others excluded name)
  unfolding leaf_claim_available
  leaf_claim-IsSpared c others excluded name = elim (Bool-cases (contains excluded name)) [
    | inl out ↦ rw out tt
    | inr free ↦ rw free (compatible-IsSpared ((name, c) ∷ []) others)
  ]

  lazy_combined-IsSpared :
      (kind : Kind) (f : String → Result Bool) (ms : List String)
      → ((m : String) → IsSpared (f m))
      → IsSpared (lazy_combined kind f ms)
  unfolding lazy_combined
  lazy_combined-IsSpared Kind.bundle f ms h = lazy_all-IsSpared f ms h
  lazy_combined-IsSpared Kind.pool f ms h = lazy_any-IsSpared f ms h
  lazy_combined-IsSpared Kind.alias f ms h = lazy_any-IsSpared f ms h

  claim_available-IsSpared :
      (fuel : ℕ) (c : Claim) (others : List Allocation) (excluded : List String) (name : String)
      (trail : List String)
      → IsEnough reg fuel trail
      → IsSpared (selector_claim_available fuel reg c others excluded name trail)
  unfolding selector_claim_available
  claim_available-IsSpared zero c others excluded name trail h = absurd (no_fuel reg trail h)
  claim_available-IsSpared (suc fuel) c others excluded name trail h =
      enter-IsSpared reg fuel name trail h _ (λ l. leaf_claim-IsSpared c others excluded name)
        (λ kind ms fs d.
          lazy_combined-IsSpared kind _ ms
            (λ m. claim_available-IsSpared fuel c others excluded m (name ∷ trail) d))

  -- The callers' fuel.
  pub depth-IsEnough : (trail : List String) → IsTrail reg trail → IsEnough reg (depth reg) trail
  unfolding depth
  depth-IsEnough trail h = (h, omega arith)

  pub selector_leaves-IsSpared :
      (name : String) → IsSpared (selector_leaves (depth reg) reg name [])
  selector_leaves-IsSpared name = leaves-IsSpared (depth reg) name [] (depth-IsEnough [] tt)

  pub selector_claim_available-IsSpared :
      (c : Claim) (others : List Allocation) (excluded : List String) (name : String)
      → IsSpared (selector_claim_available (depth reg) reg c others excluded name [])
  selector_claim_available-IsSpared c others excluded name =
      claim_available-IsSpared (depth reg) c others excluded name [] (depth-IsEnough [] tt)

  ordered-IsSpared :
      (priority : Dict ℕ) (ms : List String) → IsSpared (ordered_members reg priority ms)
  unfolding ordered_members member_key
  ordered-IsSpared priority ms =
      >>=-IsSpared (traverse (member_key reg priority) ms) _
        (traverse-IsSpared (member_key reg priority) ms (λ m.
          >>=-IsSpared (selector_leaves (depth reg) reg m []) _ (selector_leaves-IsSpared m)
            (λ xs q. tt)))
        (λ keyed q. tt)

  unseen-Spares : (seen : List Choice) (g : Gen Choice) → Spares g → Spares (unseen seen g)
  unfolding unseen
  unseen-Spares seen stop h = tt
  unseen-Spares seen (fail e) h = h
  unseen-Spares seen (yield c g) h = elim (Bool-cases (any (same_choice c) seen)) [
    | inl again ↦ rw again (unseen-Spares seen g h)
    | inr fresh ↦ rw fresh (unseen-Spares (c ∷ seen) g h)
  ]

  combine-Spares :
      (options : String → Gen Choice) (ms selected : List String)
      → ((m : String) → Spares (options m))
      → Spares (combine options ms selected)
  unfolding combine
  combine-Spares options [] selected h = tt
  combine-Spares options (m ∷ ms) selected h =
      each-Spares (options m) _ (h m)
        (λ option. chosen option (combine-Spares options ms (union selected option) h))
    where
      chosen :
          (option : Choice)
          → Spares (combine options ms (union selected option))
          → Spares (
              if disjoint selected option then combine options ms (union selected option) else stop)
      chosen option k = elim (Bool-cases (disjoint selected option)) [
        | inl a ↦ rw a k
        | inr b ↦ rw b tt
      ]

  choices-Spares :
      (kind : Kind) (options : String → Gen Choice) (ms : List String)
      → ((m : String) → Spares (options m))
      → Spares (choices kind options ms)
  unfolding choices
  choices-Spares Kind.bundle options ms h = unseen-Spares [] _ (combine-Spares options ms [] h)
  choices-Spares Kind.pool options ms h = unseen-Spares [] _ (for_each-Spares ms options h)
  choices-Spares Kind.alias options ms h = unseen-Spares [] _ (for_each-Spares ms options h)

  alternatives_from-Spares :
      (fuel : ℕ) (priority : Dict ℕ) (excluded : List String) (name : String) (trail : List String)
      → IsEnough reg fuel trail
      → Spares (alternatives fuel reg priority excluded name trail)
  unfolding alternatives
  alternatives_from-Spares zero priority excluded name trail h = absurd (no_fuel reg trail h)
  alternatives_from-Spares (suc fuel) priority excluded name trail h =
      enter-Spares reg fuel name trail h _ (λ l. leaf l)
        (λ kind ms fs d.
          raising-Spares (selector_available (depth reg) reg excluded name trail) _
            (available-IsSpared (depth reg) excluded name trail (depth-IsEnough trail h.0))
            (λ available q.
              opened available kind ms
                (λ m. alternatives_from-Spares fuel priority excluded m (name ∷ trail) d)))
    where
      leaf : (l : Leaf) → Spares (if contains excluded name then stop else yield (name ∷ []) stop)
      leaf l = elim (Bool-cases (contains excluded name)) [ inl a ↦ rw a tt | inr b ↦ rw b tt ]

      opened :
          (available : Bool) (kind : Kind) (ms : List String)
          → ((m : String) → Spares (alternatives fuel reg priority excluded m (name ∷ trail)))
          → Spares (
              if available
              then raising (ordered_members reg priority ms) (λ members.
                choices kind
                  (λ m. alternatives fuel reg priority excluded m (name ∷ trail))
                  members)
              else stop)
      opened false kind ms k = tt
      opened true kind ms k =
          raising-Spares (ordered_members reg priority ms) _ (ordered-IsSpared priority ms)
            (λ members q. choices-Spares kind _ members k)

  pub alternatives-Spares :
      (priority : Dict ℕ) (excluded : List String) (name : String)
      → Spares (alternatives (depth reg) reg priority excluded name [])
  alternatives-Spares priority excluded name =
      alternatives_from-Spares (depth reg) priority excluded name [] (depth-IsEnough [] tt)
