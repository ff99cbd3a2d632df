-- ===== src/Metrics/Union.antt =====
-- resource_metrics.py: intervals_union, the time that some interval covers.
pub mod Measure
use orchestrator_engine.Prelude.{
  max, ℕ, zero, suc, ◌+◌, ◌-◌, Bool, true, false, ◌&&◌, ◌||◌, Option, none, some, List, [], ◌∷◌,
  eqb, leb, ltb, if◌then◌else◌,
}

-- A start and a finish.
abbrev pub Interval : Type 0
Interval = ℕ × ℕ

-- The order of tuples.
unfoldable pub before : Interval → Interval → Bool
before (s, f) (s', f') = ltb s s' || eqb s s' && leb f f'

unfoldable pub insert : Interval → List Interval → List Interval
insert x [] = x ∷ []
insert x (y ∷ ys) = let rest = insert x ys in if before x y then x ∷ y ∷ ys else y ∷ rest

unfoldable pub sorted : List Interval → List Interval
sorted [] = []
sorted (x ∷ xs) = insert x (sorted xs)

abbrev pub end_or : ℕ → Option ℕ → ℕ
end_or d none = d
end_or d (some e) = e

-- The loop: the end so far, and the total.
unfoldable pub add_intervals : (end : Option ℕ) → (total : ℕ) → List Interval → ℕ
add_intervals end total [] = total
add_intervals end total ((start, finish) ∷ xs) =
    add_intervals (some (max finish (end_or finish end)))
      (total + (finish - max start (end_or start end))) xs

unfoldable pub intervals_union : List Interval → ℕ
intervals_union intervals = add_intervals none 0 (sorted intervals)
