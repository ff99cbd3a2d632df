-- ===== src/Ledger/Plans/Acyclic.antt =====
-- The loop that looks for a cycle: it ends, and what it lets through has none.
use mathlib.Core.List.{Memᴰ}
use mathlib.Core.List.Memᴰ
use mathlib.Core.WellFounded.{Acc}
use orchestrator_engine.Prelude.{
  ℕ, zero, suc, ◌≤◌, String, ◌≡◌, refl, sym, ap, subst, ◌∙◌, inl, inr, Bool, true, false, List, [],
  ◌∷◌, arith, filter, any, all, contains, length, All, eq_of_test, ◌||◌, ◌==◌, Bool-cases, ◌≢◌, ◌<◌,
  eq_iff, ◌⊎◌,
}
use orchestrator_engine.Result.{Result, ok, err, exhausted, cyclic_stages}
use orchestrator_engine.Ledger.Plans.{Definition, after_names, names_of, is_blocked, blocked, peel}

-- Fewer stages remain behind a round that does not raise.
length-filter : (p : Definition → Bool) (ds : List Definition) → length (filter p ds) ≤ length ds
length-filter p [] = omega arith
length-filter p (d ∷ ds) = ground (arith, length-filter p ds)

length-filter_lt :
    (p : Definition → Bool) (ds : List Definition)
    → all p ds ≡ false
    → length (filter p ds) < length ds
length-filter_lt p [] e = cc
length-filter_lt p (d ∷ ds) e = ground (arith, length-filter p ds, length-filter_lt p ds)

-- The loop of `submit` ends: with at least as many rounds as stages it never runs out of them.
pub peel-ends : (fuel : ℕ) (ds : List Definition) → length ds ≤ fuel → peel fuel ds ≢ err exhausted
unfolding peel
peel-ends fuel [] enough = λ e. cc
peel-ends zero (d ∷ ds) enough = absurd (omega arith)
peel-ends (suc fuel) (d ∷ ds) enough = elim (Bool-cases (all (is_blocked (d ∷ ds)) (d ∷ ds))) [
  | inl stuck ↦ rw stuck distinct_errors
  | inr round ↦
      let fewer = length-filter_lt (is_blocked (d ∷ ds)) (d ∷ ds) round in
      rw round (peel-ends fuel (blocked (d ∷ ds)) (omega arith))
]
  where
    distinct_errors : ◌≡◌ {A = Result (Unit {0})} (err cyclic_stages) (err exhausted) → ⊥
    distinct_errors e = cc

-- A stage of the plan that another names as its dependency.
abbrev pub Precedes : List Definition → Definition → Definition → Type 0
Precedes ds e d = Memᴰ e ds × (contains (after_names d.after) e.name ≡ true)

-- What is not yet known to be free of cycles remains.
abbrev IsSettled : List Definition → List Definition → Definition → Type 0
IsSettled ds left d = Acc (Precedes ds) d ⊎ Memᴰ d left

contains-names :
    (e : Definition) (ds : List Definition) → Memᴰ e ds → contains (names_of ds) e.name ≡ true
contains-names e [] m = absurd (Memᴰ.not-nil m)
contains-names e (d ∷ ds) (Memᴰ.head same) =
    subst (λ x. (x.name == e.name) || contains (names_of ds) e.name ≡ true) same
      (ground (arith, eq_iff e.name e.name))
contains-names e (d ∷ ds) (Memᴰ.tail m) = ground (arith, contains-names e ds m)

any-contains :
    (names after : List String) (x : String)
    → any (contains names) after ≡ false
    → contains after x ≡ true
    → contains names x ≡ false
any-contains names [] x free m = cc
any-contains names (y ∷ after) x free m = elim (Bool-cases (y == x)) [
  | inl same ↦ subst (λ z. contains names z ≡ false) (eq_of_test y x same) (ground arith)
  | inr other ↦ any-contains names after x (ground arith) (ground arith)
]

mem-filter :
    (p : Definition → Bool) (d : Definition) (ds : List Definition)
    → Memᴰ d ds
    → p d ≡ true
    → Memᴰ d (filter p ds)
mem-filter p d [] m e = absurd (Memᴰ.not-nil m)
mem-filter p d (x ∷ ds) (Memᴰ.head same) e = rw (ap p (sym same) ∙ e) (Memᴰ.head same)
mem-filter p d (x ∷ ds) (Memᴰ.tail m) e = elim (Bool-cases (p x)) [
  | inl kept ↦ rw kept (Memᴰ.tail (mem-filter p d ds m e))
  | inr out ↦ rw out (mem-filter p d ds m e)
]

All_of_mem :
    (P : Definition → Type 0) (d : Definition) (ds : List Definition) → Memᴰ d ds → All P ds → P d
All_of_mem P d [] m h = absurd (Memᴰ.not-nil m)
All_of_mem P d (x ∷ ds) (Memᴰ.head same) (h, hs) = subst P (sym same) h
All_of_mem P d (x ∷ ds) (Memᴰ.tail m) (h, hs) = All_of_mem P d ds m hs

module _ (ds left : List Definition) (known : All (IsSettled ds left) ds) where
  -- One round settles a stage that depends on nothing that remains.
  IsSettled-round : (d : Definition) → IsSettled ds left d → IsSettled ds (blocked left) d
  IsSettled-round d (inl a) = inl a
  IsSettled-round d (inr m) = elim (Bool-cases (is_blocked left d)) [
    | inl waits ↦ inr (mem-filter (is_blocked left) d left m waits)
    | inr free ↦ inl (
        Acc.intro d (λ e (at, named). elim (All_of_mem (IsSettled ds left) e ds at known) [
          | inl a ↦ a
          | inr here ↦ absurd (
              true-false (
                sym (contains-names e left here)
                ∙ any-contains (names_of left) (after_names d.after) e.name free named))
        ]))
  ]
    where
      true-false : true ≡ false → ⊥
      true-false q = cc

  IsSettled-rounds :
      (es : List Definition) → All (IsSettled ds left) es → All (IsSettled ds (blocked left)) es
  IsSettled-rounds [] h = tt
  IsSettled-rounds (e ∷ es) (h, hs) = (IsSettled-round e h, IsSettled-rounds es hs)

peel-settled :
    (ds : List Definition) (fuel : ℕ) (left : List Definition)
    → peel fuel left ≡ ok tt
    → All (IsSettled ds left) ds
    → All (Acc (Precedes ds)) ds
unfolding peel
peel-settled ds fuel [] e known = all_of ds known
  where
    all_of : (es : List Definition) → All (IsSettled ds []) es → All (Acc (Precedes ds)) es
    all_of [] h = tt
    all_of (x ∷ es) (inl a, hs) = (a, all_of es hs)
    all_of (x ∷ es) (inr m, hs) = absurd (Memᴰ.not-nil m)
peel-settled ds zero (d ∷ left) e known = cc
peel-settled ds (suc fuel) (d ∷ left) e known =
    elim (Bool-cases (all (is_blocked (d ∷ left)) (d ∷ left))) [
      | inl stuck ↦ absurd (raised (rw stuck at e))
      | inr round ↦
          peel-settled ds fuel (blocked (d ∷ left)) (rw round at e)
            (IsSettled-rounds ds (d ∷ left) known ds known)
    ]
  where
    raised : ◌≡◌ {A = Result (Unit {0})} (err cyclic_stages) (ok tt) → ⊥
    raised q = cc

-- A plan that passes the loop of `submit` has no cycle: from none of its stages can one go on to a
-- stage that it depends on without end.
pub peel-Acc : (ds : List Definition) → peel (length ds) ds ≡ ok tt → All (Acc (Precedes ds)) ds
peel-Acc ds e = peel-settled ds (length ds) ds e (remaining ds (λ d m. m))
  where
    remaining :
        (es : List Definition)
        → ((d : Definition) → Memᴰ d es → Memᴰ d ds)
        → All (IsSettled ds ds) es
    remaining [] inside = tt
    remaining (x ∷ es) inside =
        (inr (inside x (Memᴰ.head refl)), remaining es (λ d m. inside d (Memᴰ.tail m)))
