-- ===== src/Resources/Claims/Safety.antt =====
-- What `compatible` decides: whether the holders of every leaf stay within its capacity and may
-- share it.
use orchestrator_engine.Prelude.{
  ◌+◌, ◌≤◌, String, ◌≡◌, refl, ◌⊎◌, ◌↔◌, IsDict, IsDict-lookup, inl, inr, true, false, Option, none,
  some, List, [], ◌∷◌, arith, any, All, lookup, eq_iff, Option-cases,
}
use orchestrator_engine.Json.{Json, eq-str, eq-str_self}
use orchestrator_engine.Result.{ok}
use orchestrator_engine.Resources.Registry.{Registry, Entry, Leaf}
use orchestrator_engine.Resources.Claims.{
  Mode, Claim, Allocation, occupied, total_units, clashes, over_capacity, fits, compatible,
}

-- A claim as `demands` lets it through: a shared one names its group by a text.
abbrev pub IsClaim : Claim → Type 0
IsClaim c =
    (1 ≤ c.units)
    × ((c.mode ≡ Mode.exclusive)
        ⊎ (c.mode ≡ Mode.shared) × ((g : String) × (c.compatibility ≡ Json.str g)))

abbrev pub Shares : Claim → Claim → Type 0
Shares a b =
    (a.mode ≡ Mode.shared)
    × (b.mode ≡ Mode.shared)
    × ((g : String) × (a.compatibility ≡ Json.str g) × (b.compatibility ≡ Json.str g))

abbrev pub PairsShare : List Claim → Type 0
PairsShare [] = Unit
PairsShare (c ∷ cs) = All (Shares c) cs × PairsShare cs

-- The holders of one leaf, by its entry in the registry.
abbrev pub LeafIsSafe : Option Entry → List Claim → Type 0
LeafIsSafe none cs = cs ≡ []
LeafIsSafe (some (Entry.selector k ms fs)) cs = cs ≡ []
LeafIsSafe (some (Entry.resource l)) cs = (total_units cs ≤ l.capacity) × PairsShare cs

-- No leaf is held beyond its capacity, and two holders of one leaf share it in one group.
abbrev pub IsSafe : Registry → List Allocation → Type 0
IsSafe reg held = (leaf : String) → LeafIsSafe (lookup leaf reg) (occupied leaf held)

-- An allocation of well-formed claims on registered leaves.
abbrev pub IsPlaced : Registry → Allocation → Type 0
IsPlaced reg a =
    (leaf : String) (c : Claim)
    → lookup leaf a ≡ some c
    → ((l : Leaf) × (lookup leaf reg ≡ some (Entry.resource l))) × IsClaim c

-- Every round of the loop passed.
compatible-lookup :
    (reg : Registry) (a : Allocation) (others : List Allocation) (leaf : String) (c : Claim)
    → compatible reg a others ≡ ok true
    → lookup leaf a ≡ some c
    → (over_capacity reg leaf c ≡ ok false) × (fits reg leaf c (occupied leaf others) ≡ ok true)
unfolding compatible lookup
compatible-lookup reg [] others leaf c h e = cc
compatible-lookup reg ((j, d) ∷ rest) others leaf c h e =
    ground (arith, eq_iff j leaf, compatible-lookup reg rest others leaf c)

Shares-of : (c x : Claim) → IsClaim c → c.mode ≡ Mode.shared → clashes c x ≡ false → Shares c x
unfolding clashes
Shares-of c x w m h = elim w.1 [
  | inl alone ↦ absurd (ground arith)
  | inr (_, (g, named)) ↦
      (m, ground arith, (g, named, eq-str x.compatibility g (rw (← named) (ground arith))))
]

clashes-Shares :
    (c : Claim) (cs : List Claim)
    → IsClaim c
    → c.mode ≡ Mode.shared
    → any (clashes c) cs ≡ false
    → All (Shares c) cs
clashes-Shares c [] w m h = tt
clashes-Shares c (x ∷ xs) w m h =
    (Shares-of c x w m (ground arith), clashes-Shares c xs w m (ground arith))

Shares-clashes : (c : Claim) (cs : List Claim) → All (Shares c) cs → any (clashes c) cs ≡ false
unfolding clashes
Shares-clashes c [] s = refl
Shares-clashes c (x ∷ xs) ((_, m, (g, e, f)), s) =
    rw (m, e, f, eq-str_self g, Shares-clashes c xs s)

-- A round that passes beside holders: the mode, the groups and the sum.
fits-cons :
    (reg : Registry) (leaf : String) (l : Leaf) (c x : Claim) (xs : List Claim)
    → lookup leaf reg ≡ some (Entry.resource l)
    → fits reg leaf c (x ∷ xs) ≡ ok true
    → (c.mode ≡ Mode.shared)
      × (any (clashes c) (x ∷ xs) ≡ false)
      × (c.units + total_units (x ∷ xs) ≤ l.capacity)
unfolding fits
fits-cons reg leaf l c x xs e fit = ground arith

cons-fits :
    (reg : Registry) (leaf : String) (l : Leaf) (c x : Claim) (xs : List Claim)
    → lookup leaf reg ≡ some (Entry.resource l)
    → c.mode ≡ Mode.shared
    → any (clashes c) (x ∷ xs) ≡ false
    → c.units + total_units (x ∷ xs) ≤ l.capacity
    → fits reg leaf c (x ∷ xs) ≡ ok true
unfolding fits clashes
cons-fits reg leaf l c x xs e m h n = ground arith

-- What a claim that fits adds to the holders of its leaf.
fits-LeafIsSafe :
    (reg : Registry) (leaf : String) (l : Leaf) (c : Claim) (cs : List Claim)
    → lookup leaf reg ≡ some (Entry.resource l)
    → IsClaim c
    → over_capacity reg leaf c ≡ ok false
    → fits reg leaf c cs ≡ ok true
    → LeafIsSafe (some (Entry.resource l)) cs
    → LeafIsSafe (some (Entry.resource l)) (c ∷ cs)
unfolding over_capacity total_units
fits-LeafIsSafe reg leaf l c [] e w over fit s = (ground arith, (tt, tt))
fits-LeafIsSafe reg leaf l c (x ∷ xs) e w over fit s =
    let (m, h, n) = fits-cons reg leaf l c x xs e fit in (n, (clashes-Shares c (x ∷ xs) w m h, s.1))

LeafIsSafe-fits :
    (reg : Registry) (leaf : String) (l : Leaf) (c : Claim) (cs : List Claim)
    → lookup leaf reg ≡ some (Entry.resource l)
    → LeafIsSafe (some (Entry.resource l)) (c ∷ cs)
    → (over_capacity reg leaf c ≡ ok false) × (fits reg leaf c cs ≡ ok true)
unfolding over_capacity total_units
LeafIsSafe-fits reg leaf l c [] e s = (ground arith, unfold fits in refl)
LeafIsSafe-fits reg leaf l c (x ∷ xs) e s =
    (ground arith, cons-fits reg leaf l c x xs e s.1.0.0.0 (Shares-clashes c (x ∷ xs) s.1.0) s.0)

-- The claim of the new allocation on a leaf comes before those of the others.
occupied-cons :
    (leaf : String) (a : Allocation) (held : List Allocation)
    → occupied leaf (a ∷ held)
      ≡ elim (lookup leaf a) [ none ↦ occupied leaf held | some c ↦ c ∷ occupied leaf held ]
unfolding occupied
occupied-cons leaf a held = refl

-- An allocation that passes `compatible` beside the held ones keeps every leaf within its
-- capacity and every two holders of a leaf in one group.
pub compatible-IsSafe :
    (reg : Registry) (a : Allocation) (held : List Allocation)
    → IsPlaced reg a
    → compatible reg a held ≡ ok true
    → IsSafe reg held
    → IsSafe reg (a ∷ held)
compatible-IsSafe reg a held placed h s leaf = elim (Option-cases (lookup leaf a)) [
  | inl free ↦ rw (occupied-cons leaf a held, free) (s leaf)
  | inr (c, taken) ↦
      let ((l, e), w) = placed leaf c taken in
      let (over, fit) = compatible-lookup reg a held leaf c h taken in
      rw (occupied-cons leaf a held, taken, e)
        (fits-LeafIsSafe reg leaf l c (occupied leaf held) e w over fit (rw e at (s leaf)))
]

-- And conversely, for an allocation whose keys are distinct.
All-compatible :
    (reg : Registry) (a todo : Allocation) (held : List Allocation)
    → All (λ e. lookup e.0 a ≡ some e.1) todo
    → IsPlaced reg a
    → IsSafe reg (a ∷ held)
    → compatible reg todo held ≡ ok true
unfolding compatible
All-compatible reg a [] held t placed s = refl
All-compatible reg a ((leaf, c) ∷ todo) held (taken, t) placed s =
    let ((l, e), w) = placed leaf c taken in
    let safe : LeafIsSafe (some (Entry.resource l)) (c ∷ occupied leaf held) =
      rw (occupied-cons leaf a held, taken, e) at (s leaf) in
    let (over, fit) = LeafIsSafe-fits reg leaf l c (occupied leaf held) e safe in
    rw (over, fit) (All-compatible reg a todo held t placed s)

-- Beside safe holders, `compatible` accepts an allocation of well-formed claims on distinct
-- registered leaves exactly when the holders and the allocation together are safe: within the
-- capacity of each leaf, and sharing it in one group only.
pub compatible_iff :
    (reg : Registry) (a : Allocation) (held : List Allocation)
    → IsDict a
    → IsPlaced reg a
    → IsSafe reg held
    → (compatible reg a held ≡ ok true) ↔ IsSafe reg (a ∷ held)
compatible_iff reg a held d placed s = (
  λ h. compatible-IsSafe reg a held placed h s,
  λ safe. All-compatible reg a a held (IsDict-lookup a d) placed safe,
)
