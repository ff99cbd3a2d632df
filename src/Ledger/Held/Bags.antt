-- ===== src/Ledger/Held/Bags.antt =====
-- Safety does not depend on the order of the allocations, and passes to a part of them.
use mathlib.Core.List.{Permᴰ}
use mathlib.Core.List.Permᴰ
use mathlib.Core.Path.{subst₂}
use orchestrator_engine.Prelude.{
  ◌≤◌, String, ◌≡◌, refl, subst, ap, Option, none, some, List, [], ◌∷◌, ◌++◌, arith, All, lookup,
}
use orchestrator_engine.Resources.Registry.{Registry, Entry}
use orchestrator_engine.Resources.Claims.{Claim, Allocation, occupied, total_units}
use orchestrator_engine.Resources.Claims.Safety.{Shares, PairsShare, LeafIsSafe, IsSafe}

total_units-perm : {xs ys : List Claim} → Permᴰ xs ys → total_units xs ≡ total_units ys
unfolding total_units
total_units-perm Permᴰ.nil = refl
total_units-perm (Permᴰ.cons e p) = rw (e, total_units-perm p)
total_units-perm (Permᴰ.swap {l} e f) = rw (e, f) (omega arith)
total_units-perm (Permᴰ.trans p q) = rw (total_units-perm p, total_units-perm q)

pub All-perm : {A : Type 0} (P : A → Type 0) {xs ys : List A} → Permᴰ xs ys → All P xs → All P ys
All-perm P Permᴰ.nil h = tt
All-perm P (Permᴰ.cons e p) (h, hs) = (subst P e h, All-perm P p hs)
All-perm P (Permᴰ.swap e f) (h, (k, hs)) = (subst P f k, (subst P e h, hs))
All-perm P (Permᴰ.trans p q) h = All-perm P q (All-perm P p h)

Shares-comm : (a b : Claim) → Shares a b → Shares b a
Shares-comm a b (m, n, (g, e, f)) = (n, m, (g, f, e))

PairsShare-perm : {xs ys : List Claim} → Permᴰ xs ys → PairsShare xs → PairsShare ys
PairsShare-perm Permᴰ.nil h = tt
PairsShare-perm (Permᴰ.cons {a} {l₂} e p) (h, hs) =
    (subst (λ c. All (Shares c) l₂) e (All-perm (Shares a) p h), PairsShare-perm p hs)
PairsShare-perm (Permᴰ.swap {a} {b} {a'} {b'} {l} e f) ((h, ha), (hb, hs)) =
    subst₂ (λ x y. PairsShare (y ∷ x ∷ l)) e f ((Shares-comm a b h, hb), (ha, hs))
PairsShare-perm (Permᴰ.trans p q) h = PairsShare-perm q (PairsShare-perm p h)

-- The claim of one allocation on a leaf, before those of the others.
abbrev pub with_claim : Option Claim → List Claim → List Claim
with_claim o cs = elim o [ none ↦ cs | some c ↦ c ∷ cs ]

with_claim-perm :
    (o : Option Claim) {xs ys : List Claim}
    → Permᴰ xs ys
    → Permᴰ (with_claim o xs) (with_claim o ys)
with_claim-perm none p = p
with_claim-perm (some c) p = Permᴰ.cons refl p

with_claim-swap :
    (o p : Option Claim) (xs : List Claim)
    → Permᴰ (with_claim o (with_claim p xs)) (with_claim p (with_claim o xs))
with_claim-swap none none xs = Permᴰ.refl xs
with_claim-swap none (some d) xs = Permᴰ.refl (d ∷ xs)
with_claim-swap (some c) none xs = Permᴰ.refl (c ∷ xs)
with_claim-swap (some c) (some d) xs = Permᴰ.swap refl refl

occupied-perm :
    (leaf : String) {xs ys : List Allocation}
    → Permᴰ xs ys
    → Permᴰ (occupied leaf xs) (occupied leaf ys)
unfolding occupied
occupied-perm leaf Permᴰ.nil = Permᴰ.nil
occupied-perm leaf (Permᴰ.cons {a} {l₁} {l₂} e p) =
    subst (λ b. Permᴰ (occupied leaf (a ∷ l₁)) (occupied leaf (b ∷ l₂))) e
      (with_claim-perm (lookup leaf a) (occupied-perm leaf p))
occupied-perm leaf (Permᴰ.swap {a} {b} {l} e f) =
    subst₂ (λ x y. Permᴰ (occupied leaf (a ∷ b ∷ l)) (occupied leaf (y ∷ x ∷ l))) e f
      (with_claim-swap (lookup leaf a) (lookup leaf b) (occupied leaf l))
occupied-perm leaf (Permᴰ.trans p q) = Permᴰ.trans (occupied-perm leaf p) (occupied-perm leaf q)

nil-perm {ℓ} : {A : Type ℓ} {xs ys : List A} → Permᴰ xs ys → xs ≡ [] → ys ≡ []
nil-perm Permᴰ.nil e = refl
nil-perm (Permᴰ.cons _ _) e = cc
nil-perm (Permᴰ.swap _ _) e = cc
nil-perm (Permᴰ.trans p q) e = nil-perm q (nil-perm p e)

LeafIsSafe-perm :
    (e : Option Entry) {xs ys : List Claim} → Permᴰ xs ys → LeafIsSafe e xs → LeafIsSafe e ys
LeafIsSafe-perm none p h = nil-perm p h
LeafIsSafe-perm (some (Entry.selector k ms fs)) p h = nil-perm p h
LeafIsSafe-perm (some (Entry.resource l)) p (h, hs) =
    (subst (λ n. n ≤ l.capacity) (total_units-perm p) h, PairsShare-perm p hs)

pub IsSafe-perm :
    (reg : Registry) {xs ys : List Allocation} → Permᴰ xs ys → IsSafe reg xs → IsSafe reg ys
IsSafe-perm reg p h leaf = LeafIsSafe-perm (lookup leaf reg) (occupied-perm leaf p) (h leaf)

-- Part of a list, in its order.
pub data Part : List Claim → List Claim → Type 0 where
  nil : Part [] []
  keep : {c : Claim} {xs ys : List Claim} → Part xs ys → Part (c ∷ xs) (c ∷ ys)
  drop : {c : Claim} {xs ys : List Claim} → Part xs ys → Part xs (c ∷ ys)

pub Part-self : (xs : List Claim) → Part xs xs
Part-self [] = Part.nil
Part-self (x ∷ xs) = Part.keep (Part-self xs)

pub Part-append : {xs ys us vs : List Claim} → Part xs ys → Part us vs → Part (xs ++ us) (ys ++ vs)
Part-append Part.nil q = q
Part-append (Part.keep p) q = Part.keep (Part-append p q)
Part-append (Part.drop p) q = Part.drop (Part-append p q)

Part-All : (P : Claim → Type 0) {xs ys : List Claim} → Part xs ys → All P ys → All P xs
Part-All P Part.nil h = tt
Part-All P (Part.keep p) (h, hs) = (h, Part-All P p hs)
Part-All P (Part.drop p) (h, hs) = Part-All P p hs

Part-total_units : {xs ys : List Claim} → Part xs ys → total_units xs ≤ total_units ys
unfolding total_units
Part-total_units Part.nil = omega arith
Part-total_units (Part.keep p) = omega (arith, Part-total_units p)
Part-total_units (Part.drop p) = omega (arith, Part-total_units p)

Part-PairsShare : {xs ys : List Claim} → Part xs ys → PairsShare ys → PairsShare xs
Part-PairsShare Part.nil h = tt
Part-PairsShare (Part.keep {c} p) (h, hs) = (Part-All (Shares c) p h, Part-PairsShare p hs)
Part-PairsShare (Part.drop p) (h, hs) = Part-PairsShare p hs

Part-nil : {xs ys : List Claim} → Part xs ys → ys ≡ [] → xs ≡ []
Part-nil Part.nil e = refl
Part-nil (Part.keep p) e = cc
Part-nil (Part.drop p) e = cc

pub Part-LeafIsSafe :
    (e : Option Entry) {xs ys : List Claim} → Part xs ys → LeafIsSafe e ys → LeafIsSafe e xs
Part-LeafIsSafe none p h = Part-nil p h
Part-LeafIsSafe (some (Entry.selector k ms fs)) p h = Part-nil p h
Part-LeafIsSafe (some (Entry.resource l)) p (h, hs) =
    (omega (arith, Part-total_units p), Part-PairsShare p hs)

with_claim-append :
    (o : Option Claim) (xs ys zs : List Claim)
    → zs ≡ xs ++ ys
    → with_claim o zs ≡ with_claim o xs ++ ys
with_claim-append none xs ys zs e = e
with_claim-append (some c) xs ys zs e = ap (◌∷◌ c) e

pub occupied-append :
    (leaf : String) (xs ys : List Allocation)
    → occupied leaf (xs ++ ys) ≡ occupied leaf xs ++ occupied leaf ys
unfolding occupied
occupied-append leaf [] ys = refl
occupied-append leaf (a ∷ xs) ys =
    with_claim-append (lookup leaf a) _ _ _ (occupied-append leaf xs ys)

-- A new allocation in the middle.
pub middle-perm {ℓ} : {A : Type ℓ} (a : A) (xs ys : List A) → Permᴰ (a ∷ xs ++ ys) (xs ++ (a ∷ ys))
middle-perm a [] ys = Permᴰ.refl (a ∷ ys)
middle-perm a (x ∷ xs) ys =
    Permᴰ.trans (Permᴰ.swap refl refl) (Permᴰ.cons refl (middle-perm a xs ys))

pub snoc-perm {ℓ} : {A : Type ℓ} (a : A) (xs : List A) → Permᴰ (xs ++ a ∷ []) (a ∷ xs)
snoc-perm a [] = Permᴰ.refl (a ∷ [])
snoc-perm a (x ∷ xs) = Permᴰ.trans (Permᴰ.cons refl (snoc-perm a xs)) (Permᴰ.swap refl refl)
