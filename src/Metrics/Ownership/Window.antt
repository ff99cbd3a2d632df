-- ===== src/Metrics/Ownership/Window.antt =====
-- Events of a window of time make intervals of that window.
use orchestrator_engine.Prelude.{
  ℕ, zero, suc, ◌-◌, ◌≤◌, String, ◌≡◌, refl, sym, subst, inl, inr, Bool, true, false, List, [], ◌∷◌,
  ◌==◌, arith, All, All-snoc, filter, leb, Bool-cases, if◌then◌else◌, contains, Dict, lookup, put,
}
use orchestrator_engine.Resources.Claims.{Allocation}
use orchestrator_engine.Ledger.State.{Notice, Event}
use orchestrator_engine.Metrics.Union.{Interval, intervals_union}
use orchestrator_engine.Metrics.Union.Measure.{covered, count, EndsBy, intervals_union-count}
use orchestrator_engine.Metrics.Ownership.{
  Owned, Spans, Tally, or_else, is_of, set_owned, drop_owned, owned_since, grant_leaves, add_span,
  close, note_release, release_leaves, read_notice, read_events, close_owned, no_tally, tally,
}

module _ (low high : ℕ) where
  abbrev pub IsWithin : Interval → Type 0
  IsWithin x = (low ≤ x.0) × (x.1 ≤ high)

  abbrev pub AreWithin : Spans → Type 0
  AreWithin s = All IsWithin s.intervals

  abbrev IsLate : Owned → Type 0
  IsLate o = low ≤ o.since

  abbrev IsTimely : Tally → Type 0
  IsTimely t = All IsLate t.owned × All (λ (e : String × Spans). AreWithin e.1) t.spans

  set_owned-All :
      (x : Owned) (os : List Owned) → IsLate x → All IsLate os → All IsLate (set_owned x os)
  unfolding set_owned
  set_owned-All x [] l h = (l, tt)
  set_owned-All x (o ∷ os) l (m, h) = elim (Bool-cases (is_of x.subject x.leaf o)) [
    | inl same ↦ rw same (l, h)
    | inr other ↦ rw other (m, set_owned-All x os l h)
  ]

  drop_owned-All : (s f : String) (os : List Owned) → All IsLate os → All IsLate (drop_owned s f os)
  unfolding drop_owned
  drop_owned-All s f [] h = tt
  drop_owned-All s f (o ∷ os) (m, h) = elim (Bool-cases (is_of s f o)) [
    | inl same ↦ rw same h
    | inr other ↦ rw other (m, drop_owned-All s f os h)
  ]

  owned_since-late :
      (s f : String) (at : ℕ) (os : List Owned)
      → low ≤ at
      → All IsLate os
      → low ≤ (owned_since s f at os).0
  unfolding owned_since
  owned_since-late s f at [] l h = l
  owned_since-late s f at (o ∷ os) l (m, h) = elim (Bool-cases (is_of s f o)) [
    | inl same ↦ rw same m
    | inr other ↦ rw other (owned_since-late s f at os l h)
  ]

  lookup-AreWithin :
      (k : String) (d : Dict Spans)
      → All (λ (e : String × Spans). AreWithin e.1) d
      → AreWithin (or_else (record { intervals = []; units = 0 }) (lookup k d))
  unfolding lookup
  lookup-AreWithin k [] h = tt
  lookup-AreWithin k ((j, v) ∷ d) (m, h) = elim (Bool-cases (j == k)) [
    | inl same ↦ rw same m
    | inr other ↦ rw other (lookup-AreWithin k d h)
  ]

  put-AreWithin :
      (k : String) (v : Spans) (d : Dict Spans)
      → AreWithin v
      → All (λ (e : String × Spans). AreWithin e.1) d
      → All (λ (e : String × Spans). AreWithin e.1) (put k v d)
  unfolding put
  put-AreWithin k v [] p h = (p, tt)
  put-AreWithin k v ((j, w) ∷ d) p (m, h) = elim (Bool-cases (j == k)) [
    | inl same ↦ rw same (p, h)
    | inr other ↦ rw other (m, put-AreWithin k v d p h)
  ]

  close-IsTimely :
      (leaf : String) (at : ℕ) (o : ℕ × ℕ) (t : Tally)
      → low ≤ o.0
      → at ≤ high
      → IsTimely t
      → IsTimely (close leaf at o t)
  unfolding close add_span
  close-IsTimely leaf at (since, weight) t l u (h, k) = elim (Bool-cases (leb since at)) [
    | inl forward ↦ rw forward (
      h,
      put-AreWithin leaf _ t.spans (All-snoc IsWithin _ _ (lookup-AreWithin leaf t.spans k) (l, u))
          k,
    )
    | inr back ↦ rw back (h, k)
  ]

  note_release-IsTimely :
      (leaf : String) (at : ℕ) (o : ℕ × ℕ) (t : Tally)
      → IsTimely t
      → IsTimely (note_release leaf at o t)
  unfolding note_release
  note_release-IsTimely leaf at (since, weight) t h = elim (Bool-cases (leb since at)) [
    | inl forward ↦ rw forward h
    | inr back ↦ rw back h
  ]

  module _ (at : ℕ) (l : low ≤ at) (u : at ≤ high) (subject : String) where
    grant_leaves-IsTimely :
        (capacities : Dict ℕ) (a : Allocation) (t : Tally)
        → IsTimely t
        → IsTimely (grant_leaves at subject capacities a t)
    unfolding grant_leaves
    grant_leaves-IsTimely capacities [] t h = h
    grant_leaves-IsTimely capacities ((leaf, claim) ∷ a) t (h, k) =
        grant_leaves-IsTimely capacities a _ (set_owned-All _ t.owned l h, k)

    release_leaves-IsTimely :
        (leaves : List String) (t : Tally)
        → IsTimely t
        → IsTimely (release_leaves at subject leaves t)
    unfolding release_leaves
    release_leaves-IsTimely [] t h = h
    release_leaves-IsTimely (leaf ∷ leaves) t (h, k) = release_leaves-IsTimely leaves _ (
        note_release-IsTimely leaf at (owned_since subject leaf at t.owned) _ (
          close-IsTimely leaf at (owned_since subject leaf at t.owned) _
            (owned_since-late subject leaf at t.owned l h) u
            (drop_owned-All subject leaf t.owned h, k)))

    read_notice-IsTimely :
        (n : Notice) (t : Tally) → IsTimely t → IsTimely (read_notice at subject n t)
    unfolding read_notice
    read_notice-IsTimely (Notice.granted a epoch capacities) t h =
        grant_leaves-IsTimely capacities a t h
    read_notice-IsTimely (Notice.finished outcome released evidence) t h =
        release_leaves-IsTimely released t h
    read_notice-IsTimely _ t h = h

  abbrev pub IsTime : Event → Type 0
  IsTime e = (low ≤ e.at) × (e.at ≤ high)

  read_events-IsTimely :
      (ids : List String) (es : List Event) (t : Tally)
      → All IsTime (filter (λ (e : Event). contains ids e.subject) es)
      → IsTimely t
      → IsTimely (read_events ids es t)
  unfolding read_events
  read_events-IsTimely ids [] t times h = h
  read_events-IsTimely ids (e ∷ es) t times h = read_events-IsTimely ids es _ more heard
    where
      more : All IsTime (filter (λ (x : Event). contains ids x.subject) es)
      more = elim (Bool-cases (contains ids e.subject)) [
        | inl ours ↦ (rw ours at times).1
        | inr other ↦ rw other at times
      ]

      first : contains ids e.subject ≡ true → IsTime e
      first ours = (rw ours at times).0

      heard : IsTimely (if contains ids e.subject then read_notice e.at e.subject e.notice t else t)
      heard = elim (Bool-cases (contains ids e.subject)) [
        | inl ours ↦
            rw ours (read_notice-IsTimely e.at (first ours).0 (first ours).1 e.subject e.notice t h)
        | inr other ↦ rw other h
      ]

  close_owned-IsTimely :
      (os : List Owned) (t : Tally) → All IsLate os → IsTimely t → IsTimely (close_owned high os t)
  unfolding close_owned
  close_owned-IsTimely [] t late h = h
  close_owned-IsTimely (o ∷ os) t (l, late) h =
      close_owned-IsTimely os _ late
        (close-IsTimely o.leaf high (o.since, o.weight) t l (omega arith) h)

  -- Every interval that is found lies in the window of the events and the present.
  pub tally-AreWithin :
      (ids : List String) (es : List Event)
      → All IsTime (filter (λ (e : Event). contains ids e.subject) es)
      → All (λ (e : String × Spans). AreWithin e.1) (tally high ids es).spans
  unfolding tally
  tally-AreWithin ids es times =
      let (late, within) = read_events-IsTimely ids es no_tally times (tt, tt) in
      (close_owned-IsTimely _ (read_events ids es no_tally) late (late, within)).1

  uncovered : (xs : List Interval) (t : ℕ) → All IsWithin xs → suc t ≤ low → covered xs t ≡ false
  uncovered [] t h early = refl
  uncovered (x ∷ xs) t ((l, u), h) early = ground (arith, uncovered xs t h early)

  count-late : (p : ℕ → Bool) (n : ℕ) → ((t : ℕ) → suc t ≤ low → p t ≡ false) → count p n ≤ n - low
  count-late p zero h = omega arith
  count-late p (suc n) h = elim (Bool-cases (leb low n)) [
    | inl late ↦ ground (arith, count-late p n h)
    | inr early ↦ rw (h n (ground arith)) (ground (arith, count-late p n h))
  ]

  ends : (xs : List Interval) → All IsWithin xs → EndsBy high xs
  ends [] h = tt
  ends (x ∷ xs) ((l, u), h) = (u, ends xs h)

  -- The union of intervals of a window is no longer than the window.
  pub intervals_union-bound :
      (xs : List Interval) → All IsWithin xs → intervals_union xs ≤ high - low
  intervals_union-bound xs h =
      subst (λ n. n ≤ high - low) (sym (intervals_union-count high xs (ends xs h)))
        (count-late (covered xs) high (λ t early. uncovered xs t h early))
