-- ===== src/Prelude/Dicts.antt =====
-- Python's `dict` with text keys: entries in order of insertion.
use Prim.Native.String.{String}
use mathlib.Core.Logic.{inl, inr}
use mathlib.Core.Path.{◌≡◌, refl}
use mathlib.Core.List.{List, [], ◌∷◌}
use mathlib.Core.Option.{Option, none, some}
use native.Mathlib.Omega.{arith}
use text.Mathlib.Text.{◌==◌}
use text.Mathlib.TextEquality.{eq_iff}
use orchestrator_engine.Prelude.Tests.{if◌then◌else◌, Bool-cases, eq_of_test}
use orchestrator_engine.Prelude.Lists.{All}

abbrev pub Dict {ℓ} : Type ℓ → Type ℓ
Dict V = List (String × V)

module _ {ℓ} {V : Type ℓ} where
  -- d.get(k)
  unfoldable pub lookup : String → Dict V → Option V
  lookup k [] = none
  lookup k ((j, v) ∷ d) = if j == k then some v else lookup k d

  -- d[k] = v: an old key keeps its place.
  unfoldable pub put : String → V → Dict V → Dict V
  put k v [] = (k, v) ∷ []
  put k v ((j, w) ∷ d) = if j == k then (k, v) ∷ d else (j, w) ∷ put k v d

  -- d.pop(k, None)
  unfoldable pub remove : String → Dict V → Dict V
  remove k [] = []
  remove k ((j, v) ∷ d) = let rest = remove k d in if j == k then rest else (j, v) ∷ rest

  unfoldable pub keys : Dict V → List String
  keys [] = []
  keys ((j, v) ∷ d) = j ∷ keys d

  pub lookup-put :
      (k j : String) (v : V) (d : Dict V)
      → lookup j (put k v d) ≡ (if k == j then some v else lookup j d)
  unfolding lookup put
  lookup-put k j v [] = refl
  lookup-put k j v ((i, w) ∷ d) =
      ground (arith, eq_iff k j, eq_iff i k, eq_iff i j, lookup-put k j v d)

  pub lookup-remove :
      (k j : String) (d : Dict V) → lookup j (remove k d) ≡ (if k == j then none else lookup j d)
  unfolding lookup remove
  lookup-remove k j [] = ground arith
  lookup-remove k j ((i, v) ∷ d) =
      ground (arith, lookup-remove k j d, eq_iff i k, eq_iff i j, eq_iff k j)

  -- No key stands twice.
  abbrev pub IsDict : Dict V → Type ℓ
  IsDict [] = Unit
  IsDict ((k, v) ∷ d) = (lookup k d ≡ none) × IsDict d

  pub put-IsDict : (k : String) (v : V) (d : Dict V) → IsDict d → IsDict (put k v d)
  unfolding lookup put
  put-IsDict k v [] h = (refl, tt)
  put-IsDict k v ((j, w) ∷ d) (new, h) = elim (Bool-cases (j == k)) [
    | inl same ↦ rw same (rw (eq_of_test j k same) at new, h)
    | inr other ↦
        rw other
          (rw (lookup-put k j v d) (ground (arith, eq_iff k j, eq_iff j k)), put-IsDict k v d h)
  ]

  -- Under one more entry, whose key is new, the entries are still found.
  weaken-lookup :
      (k : String) (v : V) (d todo : Dict V)
      → lookup k d ≡ none
      → All (λ e. lookup e.0 d ≡ some e.1) todo
      → All (λ e. lookup e.0 ((k, v) ∷ d) ≡ some e.1) todo
  unfolding lookup
  weaken-lookup k v d [] new h = tt
  weaken-lookup k v d ((j, w) ∷ todo) new (e, h) =
      (ground (arith, eq_iff k j), weaken-lookup k v d todo new h)

  pub IsDict-lookup : (d : Dict V) → IsDict d → All (λ e. lookup e.0 d ≡ some e.1) d
  unfolding lookup
  IsDict-lookup [] h = tt
  IsDict-lookup ((k, v) ∷ d) (new, h) =
      (ground (arith, eq_iff k k), weaken-lookup k v d d new (IsDict-lookup d h))
