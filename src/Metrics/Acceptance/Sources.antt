-- ===== src/Metrics/Acceptance/Sources.antt =====
-- An item is accepted only where every source that spoke of it accepts it now.
use orchestrator_engine.Prelude.{
  ℕ, ◌≤◌, String, ◌≡◌, refl, subst, ◌∙◌, ◌⊎◌, inl, inr, true, false, not, some, List, [], ◌∷◌, ◌==◌,
  arith, All, filter, Bool-cases, eq_of_some, eq_of_test, test_self, if◌then◌else◌, Dict, lookup,
  put, lookup-put,
}
use orchestrator_engine.Json.{Fields}
use orchestrator_engine.Ledger.State.{values}
use orchestrator_engine.Metrics.Acceptance.{
  Record, key_of, is_before, insert, sorted, latest_from, latest, is_accepted, is_for, by_source,
  or_list, selected, acceptance_states, acceptance_for_item,
}

abbrev pub IsOneOf : Record → List Record → Type 0
IsOneOf x [] = ⊥
IsOneOf x (y ∷ ys) = (x ≡ y) ⊎ IsOneOf x ys

module _ (P : Record → Type 0) where
  All-insert : (x : Record) (xs : List Record) → P x → All P xs → All P (insert x xs)
  unfolding insert
  All-insert x [] p h = (p, tt)
  All-insert x (y ∷ ys) p (q, h) = elim (Bool-cases (is_before y x)) [
    | inl first ↦ rw first (q, All-insert x ys p h)
    | inr later ↦ rw later (p, (q, h))
  ]

  insert-All : (x : Record) (xs : List Record) → All P (insert x xs) → P x × All P xs
  unfolding insert
  insert-All x [] (p, h) = (p, tt)
  insert-All x (y ∷ ys) h = elim (Bool-cases (is_before y x)) [
    | inl first ↦ let (q, k) = rw first at h in let (p, l) = insert-All x ys k in (p, (q, l))
    | inr later ↦ rw later at h
  ]

  All-sorted : (xs : List Record) → All P xs → All P (sorted xs)
  unfolding sorted
  All-sorted [] h = tt
  All-sorted (x ∷ xs) (p, h) = All-insert x (sorted xs) p (All-sorted xs h)

  sorted-All : (xs : List Record) → All P (sorted xs) → All P xs
  unfolding sorted
  sorted-All [] h = tt
  sorted-All (x ∷ xs) h = let (p, k) = insert-All x (sorted xs) h in (p, sorted-All xs k)

  latest_from-P : (xs : List Record) (x : Record) → P x → All P xs → P (latest_from x xs)
  unfolding latest_from
  latest_from-P [] x p h = p
  latest_from-P (y ∷ ys) x p (q, h) = latest_from-P ys _ better h
    where
      better : P (if is_before x y then y else x)
      better = elim (Bool-cases (is_before x y)) [ inl b ↦ rw b q | inr b ↦ rw b p ]

abbrev InOrder : ℕ → List Record → Type 0
InOrder low [] = Unit
InOrder low (x ∷ xs) = (low ≤ x.known_at) × InOrder x.known_at xs

insert-InOrder :
    (low : ℕ) (x : Record) (xs : List Record)
    → low ≤ x.known_at
    → InOrder low xs
    → InOrder low (insert x xs)
unfolding insert is_before
insert-InOrder low x [] l h = (l, tt)
insert-InOrder low x (y ∷ ys) l (m, h) = elim (Bool-cases (is_before y x)) [
  | inl first ↦ rw first (m, insert-InOrder y.known_at x ys (ground arith) h)
  | inr later ↦ rw later (l, (ground arith, h))
]

sorted-InOrder : (xs : List Record) → InOrder 0 (sorted xs)
unfolding sorted
sorted-InOrder [] = tt
sorted-InOrder (x ∷ xs) = insert-InOrder 0 x (sorted xs) (omega arith) (sorted-InOrder xs)

-- A record of the same source, no older, stands for `r` in the dict.
module _ (Q : Record → Type 0) where
  abbrev IsHeard : Dict Record → Record → Type 0
  IsHeard d r =
      (c : Record) × (lookup r.source_id d ≡ some c)
      × (c.source_id ≡ r.source_id)
      × (r.known_at ≤ c.known_at)
      × Q c

  put-IsHeard :
      (low : ℕ) (x : Record) (d : Dict Record) (r : Record)
      → low ≤ x.known_at
      → Q x
      → r.known_at ≤ low
      → IsHeard d r
      → IsHeard (put x.source_id x d) r
  put-IsHeard low x d r l q u (c, found, source, order, p) =
      elim (Bool-cases (x.source_id == r.source_id)) [
        | inl same ↦ (
          x,
          lookup-put x.source_id r.source_id x d ∙ rw same refl,
          eq_of_test x.source_id r.source_id same,
          omega (arith, l, u),
          q,
        )
        | inr other ↦ (c, lookup-put x.source_id r.source_id x d ∙ rw other found, source, order, p)
      ]

  put-own : (x : Record) (d : Dict Record) → Q x → IsHeard (put x.source_id x d) x
  put-own x d q = (
    x,
    lookup-put x.source_id x.source_id x d ∙ rw (test_self x.source_id) refl,
    refl,
    omega arith,
    q,
  )

  by_source-IsHeard :
      (low : ℕ) (rs : List Record) (d : Dict Record) (r : Record)
      → InOrder low rs
      → All Q rs
      → r.known_at ≤ low
      → IsHeard d r
      → IsHeard (by_source d rs) r
  unfolding by_source
  by_source-IsHeard low [] d r order qs u h = h
  by_source-IsHeard low (x ∷ rs) d r (l, order) (q, qs) u h =
      by_source-IsHeard x.known_at rs _ r order qs (omega (arith, l, u))
        (put-IsHeard low x d r l q u h)

  by_source-All :
      (low : ℕ) (rs : List Record) (d : Dict Record)
      → InOrder low rs
      → All Q rs
      → All (IsHeard (by_source d rs)) rs
  unfolding by_source
  by_source-All low [] d order qs = tt
  by_source-All low (x ∷ rs) d (l, order) (q, qs) = (
    by_source-IsHeard x.known_at rs _ x order qs (omega arith) (put-own x d q),
    by_source-All x.known_at rs _ order qs,
  )

values-lookup :
    (P : Record → Type 0) (k : String) (d : Dict Record) (c : Record)
    → All P (values d)
    → lookup k d ≡ some c
    → P c
unfolding values lookup
values-lookup P k [] c h e = cc
values-lookup P k ((j, v) ∷ d) c (p, h) e = elim (Bool-cases (j == k)) [
  | inl same ↦ subst P (eq_of_some (rw same at e)) p
  | inr other ↦ values-lookup P k d c h (rw other at e)
]

abbrev IsAccepted : Record → Type 0
IsAccepted c = is_accepted (some c) ≡ true

abbrev rejecting : List Record → List Record
rejecting = filter (λ r. not (is_accepted (some r)))

-- The latest of those that reject is one that rejects.
rejecting-All : (xs : List Record) → All (λ r. is_accepted (some r) ≡ false) (rejecting xs)
rejecting-All [] = tt
rejecting-All (x ∷ xs) = elim (Bool-cases (is_accepted (some x))) [
  | inl yes_so ↦ rw yes_so (rejecting-All xs)
  | inr not_so ↦ rw not_so (not_so, rejecting-All xs)
]

none_rejecting : (xs : List Record) → rejecting xs ≡ [] → All IsAccepted xs
none_rejecting [] e = tt
none_rejecting (x ∷ xs) e = elim (Bool-cases (is_accepted (some x))) [
  | inl yes_so ↦ (yes_so, none_rejecting xs (rw yes_so at e))
  | inr not_so ↦ absurd (cons_nil (rw not_so at e))
]
  where
    cons_nil : ◌≡◌ {A = List Record} (x ∷ rejecting xs) [] → ⊥
    cons_nil q = cc

latest-IsAccepted :
    (rs xs : List Record)
    → rejecting xs ≡ rs
    → All (λ r. is_accepted (some r) ≡ false) rs
    → is_accepted (latest (or_list rs xs)) ≡ true
    → All IsAccepted xs
unfolding latest
latest-IsAccepted [] xs e rejects h = none_rejecting xs e
latest-IsAccepted (r ∷ rs) xs e (p, rejects) h =
    absurd (cc (h, latest_from-P (λ x. is_accepted (some x) ≡ false) rs r p rejects))

All-map :
    (P Q : Record → Type 0) → ((x : Record) → P x → Q x) → (xs : List Record) → All P xs → All Q xs
All-map P Q f [] h = tt
All-map P Q f (x ∷ xs) (p, h) = (f x p, All-map P Q f xs h)

each_IsOneOf : (xs : List Record) → All (λ x. IsOneOf x xs) xs
each_IsOneOf [] = tt
each_IsOneOf (x ∷ xs) = (
  inl refl,
  All-map (λ y. IsOneOf y xs) (λ y. IsOneOf y (x ∷ xs)) (λ y m. inr m) xs (each_IsOneOf xs),
)

-- Another record of those, of the same source and no older, accepts.
abbrev pub IsUpheld : List Record → Record → Type 0
IsUpheld group r =
    (c : Record) × (c.source_id ≡ r.source_id)
    × (r.known_at ≤ c.known_at)
    × IsOneOf c group
    × (is_accepted (some c) ≡ true)

-- Where an item counts as accepted, whatever a source has said of it, under its revision and its
-- criteria, is upheld by a record of that source that is no older and accepts it with evidence.
pub acceptance_for_item-IsUpheld :
    (records : List Record) (item : Fields)
    → is_accepted (acceptance_for_item item (acceptance_states records)) ≡ true
    → All (IsUpheld (filter (is_for (key_of item)) records)) (filter (is_for (key_of item)) records)
unfolding acceptance_for_item acceptance_states selected
acceptance_for_item-IsUpheld records item h = All-map (IsHeard Q d) (IsUpheld group) upheld group (
    sorted-All (IsHeard Q d) group (
      by_source-All Q 0 (sorted group) [] (sorted-InOrder group)
        (All-sorted Q group (each_IsOneOf group))))
  where
    group : List Record
    group = filter (is_for (key_of item)) records

    Q : Record → Type 0
    Q x = IsOneOf x (filter (is_for (key_of item)) records)

    d : Dict Record
    d = by_source [] (sorted (filter (is_for (key_of item)) records))

    accepted : All IsAccepted (values d)
    accepted = latest-IsAccepted (rejecting (values d)) (values d) refl (rejecting-All (values d)) h

    upheld : (r : Record) → IsHeard Q d r → IsUpheld group r
    upheld r (c, found, source, order, p) =
        (c, source, order, p, values-lookup IsAccepted r.source_id d c accepted found)
