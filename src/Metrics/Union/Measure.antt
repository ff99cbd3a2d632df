-- ===== src/Metrics/Union/Measure.antt =====
-- The union of intervals, counted unit by unit.
use orchestrator_engine.Prelude.{
  min, max, ℕ, zero, suc, ◌+◌, ◌-◌, ◌≤◌, ◌≡◌, refl, sym, ap, ◌∙◌, inl, inr, Bool, false, ◌&&◌, ◌||◌,
  Option, none, some, List, [], ◌∷◌, arith, All, leb, ltb, Bool-cases, leb→le, if◌then◌else◌,
}
use orchestrator_engine.Metrics.Union.{
  Interval, before, insert, sorted, end_or, add_intervals, intervals_union,
}

abbrev pub inside : Interval → ℕ → Bool
inside (start, finish) t = leb start t && ltb t finish

-- Whether some interval covers the unit of time from t to t + 1.
abbrev pub covered : List Interval → ℕ → Bool
covered [] t = false
covered (x ∷ xs) t = inside x t || covered xs t

-- How many of the units before n pass the test.
abbrev pub count : (ℕ → Bool) → ℕ → ℕ
count p zero = 0
count p (suc n) = (if p n then 1 else 0) + count p n

abbrev pub EndsBy : ℕ → List Interval → Type 0
EndsBy n xs = All (λ (x : Interval). x.1 ≤ n) xs

count-same : (p q : ℕ → Bool) (n : ℕ) → ((t : ℕ) → p t ≡ q t) → count p n ≡ count q n
count-same p q zero h = refl
count-same p q (suc n) h = rw (h n) (ap (λ k. (if q n then 1 else 0) + k) (count-same p q n h))

-- Sorting keeps what is covered, and puts the starts in order.
covered-insert :
    (x : Interval) (xs : List Interval) (t : ℕ) → covered (insert x xs) t ≡ covered (x ∷ xs) t
unfolding insert
covered-insert x [] t = refl
covered-insert x (y ∷ ys) t = elim (Bool-cases (before x y)) [
  | inl first ↦ rw first refl
  | inr later ↦ rw (later, covered-insert x ys t) (swap (inside x t) (inside y t) (covered ys t))
]
  where
    swap : (a b c : Bool) → (b || (a || c)) ≡ (a || (b || c))
    swap a b c = ground arith

covered-sorted : (xs : List Interval) (t : ℕ) → covered (sorted xs) t ≡ covered xs t
unfolding sorted
covered-sorted [] t = refl
covered-sorted (x ∷ xs) t =
    covered-insert x (sorted xs) t ∙ ap (λ b. inside x t || b) (covered-sorted xs t)

abbrev InOrder : ℕ → List Interval → Type 0
InOrder low [] = Unit
InOrder low (x ∷ xs) = (low ≤ x.0) × InOrder x.0 xs

insert-InOrder :
    (low : ℕ) (x : Interval) (xs : List Interval)
    → low ≤ x.0
    → InOrder low xs
    → InOrder low (insert x xs)
unfolding insert before
insert-InOrder low x [] l h = (l, tt)
insert-InOrder low (s, f) ((s', f') ∷ ys) l (m, h) = elim (Bool-cases (before (s, f) (s', f'))) [
  | inl first ↦ rw first (l, (ground arith, h))
  | inr later ↦ rw later (m, insert-InOrder s' (s, f) ys (ground arith) h)
]

sorted-InOrder : (xs : List Interval) → InOrder 0 (sorted xs)
unfolding sorted
sorted-InOrder [] = tt
sorted-InOrder (x ∷ xs) = insert-InOrder 0 x (sorted xs) (omega arith) (sorted-InOrder xs)

insert-EndsBy :
    (n : ℕ) (x : Interval) (xs : List Interval) → x.1 ≤ n → EndsBy n xs → EndsBy n (insert x xs)
unfolding insert
insert-EndsBy n x [] l h = (l, tt)
insert-EndsBy n x (y ∷ ys) l (m, h) = elim (Bool-cases (before x y)) [
  | inl first ↦ rw first (l, (m, h))
  | inr later ↦ rw later (m, insert-EndsBy n x ys l h)
]

sorted-EndsBy : (n : ℕ) (xs : List Interval) → EndsBy n xs → EndsBy n (sorted xs)
unfolding sorted
sorted-EndsBy n [] h = tt
sorted-EndsBy n (x ∷ xs) (l, h) = insert-EndsBy n x (sorted xs) l (sorted-EndsBy n xs h)

-- One interval more: from its start on, the units before `e` are the ones covered already.
module _ (cov : ℕ → Bool) (s f e : ℕ) (known : (t : ℕ) → s ≤ t → cov t ≡ ltb t e) where
  count_more : (n : ℕ) → count (λ t. cov t || inside (s, f) t) n ≡ count cov n + (min f n - max s e)
  count_more zero = ground arith
  count_more (suc n) = elim (Bool-cases (leb s n)) [
    | inl from ↦ rw (known n (leb→le s n from)) (step n _ _ (count_more n))
    | inr until ↦ ground (arith, count_more n)
  ]
    where
      step :
          (n c d : ℕ)
          → c ≡ d + (min f n - max s e)
          → (if ltb n e || inside (s, f) n then 1 else 0) + c
            ≡ (if ltb n e then 1 else 0) + d + (min f (suc n) - max s e)
      step n c d h = ground arith

-- The loop adds to the total what the intervals that are left cover beside the others.
add_intervals-count :
    (n low : ℕ) (end : Option ℕ) (cov : ℕ → Bool) (xs : List Interval)
    → ((t : ℕ) → low ≤ t → cov t ≡ ltb t (end_or 0 end))
    → InOrder low xs
    → EndsBy n xs
    → add_intervals end (count cov n) xs ≡ count (λ t. cov t || covered xs t) n
unfolding add_intervals
add_intervals-count n low end cov [] known order ends = count-same cov _ n (λ t. or_false (cov t))
  where
    or_false : (b : Bool) → b ≡ (b || false)
    or_false b = ground arith
add_intervals-count n low end cov ((s, f) ∷ xs) known (l, order) (u, ends) = rw added (
    add_intervals-count n s (some (max f (end_or f end))) (λ t. cov t || inside (s, f) t) xs
      (λ t m. later end t m (known t (omega (arith, l, m)))) order ends
    ∙ count-same _ _ n (λ t. grouped (cov t) (inside (s, f) t) (covered xs t)))
  where
    same : (o : Option ℕ) → min f n - max s (end_or 0 o) ≡ f - max s (end_or s o)
    same none = ground arith
    same (some k) = ground arith

    later :
        (o : Option ℕ) (t : ℕ)
        → s ≤ t
        → cov t ≡ ltb t (end_or 0 o)
        → (cov t || inside (s, f) t) ≡ ltb t (end_or 0 (some (max f (end_or f o))))
    later none t m h = ground arith
    later (some k) t m h = ground arith

    grouped : (a b c : Bool) → ((a || b) || c) ≡ (a || (b || c))
    grouped a b c = ground arith

    added : count cov n + (f - max s (end_or s end)) ≡ count (λ t. cov t || inside (s, f) t) n
    added = sym (
        count_more cov s f (end_or 0 end) (λ t m. known t (omega (arith, l, m))) n
        ∙ ap (λ k. count cov n + k) (same end))

-- The total that intervals_union gives is the number of units of time that some interval covers, each
-- counted once, however the intervals overlap and in whatever order they come.
pub intervals_union-count :
    (n : ℕ) (xs : List Interval) → EndsBy n xs → intervals_union xs ≡ count (covered xs) n
unfolding intervals_union
intervals_union-count n xs ends =
    ap (λ k. add_intervals none k (sorted xs)) (sym (nothing n))
    ∙ add_intervals-count n 0 none (λ t. false) (sorted xs) (λ t m. before_zero t)
        (sorted-InOrder xs) (sorted-EndsBy n xs ends)
    ∙ count-same _ _ n (covered-sorted xs)
  where
    nothing : (n : ℕ) → count (λ t. false) n ≡ 0
    nothing zero = refl
    nothing (suc n) = omega (arith, nothing n)

    before_zero : (t : ℕ) → false ≡ ltb t (end_or 0 none)
    before_zero t = ground arith
