-- ===== src/Resources/Alternatives.antt =====
-- resource_queue.py: `alternatives`, a lazy generator of the leaf sets that satisfy a selector.
pub mod Ends
use Prim.Native.String.{compare}
use text.Mathlib.Text.{is_lt}
use orchestrator_engine.Prelude.{
  ℕ, zero, suc, String, Bool, true, false, not, ◌&&◌, ◌||◌, none, some, List, [], ◌∷◌, ◌==◌, ltb,
  eqb, if◌then◌else◌, contains, any, all, map, length, Dict, lookup,
}
use orchestrator_engine.Result.{
  Result, ok, ◌>>=◌, traverse, Gen, stop, fail, yield, raising, each, for_each, exhausted,
}
use orchestrator_engine.Resources.Registry.{Registry, Entry, Kind}
use orchestrator_engine.Resources.Selectors.{enter, union, selector_leaves, selector_available}

-- A tuple of leaf names.
abbrev pub Choice : Type 0
Choice = List String

-- No chain of members is longer than the registry; one more for the selector itself.
unfoldable pub depth : Registry → ℕ
depth reg = suc (length reg)

-- Insertion into a sorted list, and `sorted`, by a strict order.
module _ {ℓ} {A : Type ℓ} (before : A → A → Bool) where
  unfoldable pub insert : A → List A → List A
  insert a [] = a ∷ []
  insert a (x ∷ xs) = if before x a then x ∷ insert a xs else a ∷ x ∷ xs

  unfoldable pub sorted : List A → List A
  sorted [] = []
  sorted (x ∷ xs) = insert x (sorted xs)

abbrev pub text_before : String → String → Bool
text_before s t = is_lt (compare s t)

abbrev pub key_before : ℕ × String → ℕ × String → Bool
key_before (m, s) (n, t) = ltb m n || (eqb m n && text_before s t)

-- min(..., default=0)
unfoldable pub min_or_zero : List ℕ → ℕ
min_or_zero [] = 0
min_or_zero (n ∷ []) = n
min_or_zero (n ∷ ns) = let m = min_or_zero ns in if ltb m n then m else n

-- priority.get(leaf, 0)
abbrev pub priority_of : Dict ℕ → String → ℕ
priority_of priority leaf = elim (lookup leaf priority) [ none ↦ 0 | some n ↦ n ]

-- The sort key of a member.
unfoldable pub member_key : Registry → Dict ℕ → String → Result (ℕ × String)
member_key reg priority m = do
  leaves ← selector_leaves (depth reg) reg m []
  ok (min_or_zero (map (priority_of priority) leaves), m)

unfoldable pub ordered_members : Registry → Dict ℕ → List String → Result (List String)
ordered_members reg priority ms = do
  keyed ← traverse (member_key reg priority) ms
  ok (map (λ (n, m). m) (sorted key_before keyed))

unfoldable pub same_choice : Choice → Choice → Bool
same_choice [] [] = true
same_choice (x ∷ xs) (y ∷ ys) = x == y && same_choice xs ys
same_choice _ _ = false

-- `if choice not in seen: seen.add(choice); yield choice`
unfoldable pub unseen : List Choice → Gen Choice → Gen Choice
unseen seen stop = stop
unseen seen (fail e) = fail e
unseen seen (yield c g) =
    let fresh = unseen (c ∷ seen) g in
    let again = unseen seen g in if any (same_choice c) seen then again else yield c fresh

unfoldable pub disjoint : List String → List String → Bool
disjoint xs ys = all (λ y. not (contains xs y)) ys

-- `combine` of a bundle, before the test on `seen`: members in order, each with an alternative
-- that shares no leaf with those selected.
unfoldable pub combine : (String → Gen Choice) → List String → List String → Gen Choice
combine options [] selected = yield (sorted text_before selected) stop
combine options (m ∷ ms) selected = each (options m) (λ option.
    if disjoint selected option then combine options ms (union selected option) else stop)

-- The two kinds of choice among the members in order.
unfoldable pub choices : Kind → (String → Gen Choice) → List String → Gen Choice
choices Kind.bundle options ms = unseen [] (combine options ms [])
choices _ options ms = unseen [] (for_each ms options)

unfoldable pub alternatives :
    ℕ → Registry → Dict ℕ → List String → String → List String → Gen Choice
alternatives zero reg priority excluded name trail = fail exhausted
alternatives (suc fuel) reg priority excluded name trail = raising (enter reg name trail) (λ e.
    elim e [
      | Entry.resource l ↦ if contains excluded name then stop else yield (name ∷ []) stop
      | Entry.selector k ms fs ↦
          raising (selector_available (depth reg) reg excluded name trail) (λ available.
            if available
            then raising (ordered_members reg priority ms) (λ members.
              choices k (λ m. alternatives fuel reg priority excluded m (name ∷ trail)) members)
            else stop)
    ])
