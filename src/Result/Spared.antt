-- ===== src/Result/Spared.antt =====
-- Calls and generators that never run out of fuel.
use orchestrator_engine.Prelude.{
  ◌≡◌, refl, ◌≢◌, Bool, true, false, Option, none, some, List, [], ◌∷◌, if◌then◌else◌,
}
use orchestrator_engine.Result.Errors.{
  Error, exhausted, Result, ok, err, ◌>>=◌, guard, or_raise, traverse, lazy_any, lazy_all,
}
use orchestrator_engine.Result.Generators.{Gen, stop, fail, yield, chain, each, for_each, raising}

abbrev pub IsSpared {ℓ} : {A : Type ℓ} → Result A → Type 0
IsSpared (ok a) = Unit
IsSpared (err e) = e ≢ exhausted

abbrev pub Spares {ℓ} : {A : Type ℓ} → Gen A → Type 0
Spares stop = Unit
Spares (fail e) = e ≢ exhausted
Spares (yield a g) = Spares g

module _ {ℓ κ} {A : Type ℓ} {B : Type κ} where
  pub >>=-IsSpared :
      (m : Result A) (k : A → Result B)
      → IsSpared m
      → ((a : A) → m ≡ ok a → IsSpared (k a))
      → IsSpared (m >>= k)
  >>=-IsSpared (ok a) k h f = f a refl
  >>=-IsSpared (err e) k h f = h

  pub raising-Spares :
      (m : Result A) (k : A → Gen B)
      → IsSpared m
      → ((a : A) → m ≡ ok a → Spares (k a))
      → Spares (raising m k)
  raising-Spares (ok a) k h f = f a refl
  raising-Spares (err e) k h f = h

module _ {ℓ κ} {A : Type ℓ} {B : Type κ} where
  pub traverse-IsSpared :
      (f : A → Result B) (xs : List A) → ((x : A) → IsSpared (f x)) → IsSpared (traverse f xs)
  unfolding traverse
  traverse-IsSpared f [] h = tt
  traverse-IsSpared f (x ∷ xs) h =
      >>=-IsSpared (f x) _ (h x) (λ y e. rest-IsSpared (traverse f xs) y (traverse-IsSpared f xs h))
    where
      rest-IsSpared :
          (r : Result (List B)) (y : B) → IsSpared r → IsSpared (r >>= λ ys. ok (y ∷ ys))
      rest-IsSpared (ok ys) y p = tt
      rest-IsSpared (err e) y p = p

module _ {ℓ} {A : Type ℓ} where
  pub chain-Spares : (g h : Gen A) → Spares g → Spares h → Spares (chain g h)
  unfolding chain
  chain-Spares stop h p q = q
  chain-Spares (fail e) h p q = p
  chain-Spares (yield a g) h p q = chain-Spares g h p q

  pub lazy_any-IsSpared :
      (f : A → Result Bool) (xs : List A) → ((x : A) → IsSpared (f x)) → IsSpared (lazy_any f xs)
  unfolding lazy_any
  lazy_any-IsSpared f [] h = tt
  lazy_any-IsSpared f (x ∷ xs) h = any_rest (f x) (h x) (lazy_any-IsSpared f xs h)
    where
      any_rest :
          (r : Result Bool)
          → IsSpared r
          → IsSpared (lazy_any f xs)
          → IsSpared (r >>= λ b. elim b [ true ↦ ok true | false ↦ lazy_any f xs ])
      any_rest (ok true) p q = tt
      any_rest (ok false) p q = q
      any_rest (err e) p q = p

  pub lazy_all-IsSpared :
      (f : A → Result Bool) (xs : List A) → ((x : A) → IsSpared (f x)) → IsSpared (lazy_all f xs)
  unfolding lazy_all
  lazy_all-IsSpared f [] h = tt
  lazy_all-IsSpared f (x ∷ xs) h = all_rest (f x) (h x) (lazy_all-IsSpared f xs h)
    where
      all_rest :
          (r : Result Bool)
          → IsSpared r
          → IsSpared (lazy_all f xs)
          → IsSpared (r >>= λ b. elim b [ true ↦ lazy_all f xs | false ↦ ok false ])
      all_rest (ok true) p q = q
      all_rest (ok false) p q = tt
      all_rest (err e) p q = p

module _ {ℓ κ} {A : Type ℓ} {B : Type κ} where
  pub each-Spares :
      (g : Gen A) (f : A → Gen B) → Spares g → ((a : A) → Spares (f a)) → Spares (each g f)
  unfolding each
  each-Spares stop f p h = tt
  each-Spares (fail e) f p h = p
  each-Spares (yield a g) f p h = chain-Spares (f a) (each g f) (h a) (each-Spares g f p h)

  pub for_each-Spares :
      (xs : List A) (f : A → Gen B) → ((a : A) → Spares (f a)) → Spares (for_each xs f)
  unfolding for_each
  for_each-Spares [] f h = tt
  for_each-Spares (x ∷ xs) f h = chain-Spares (f x) (for_each xs f) (h x) (for_each-Spares xs f h)

module _ {ℓ} {A : Type ℓ} where
  pub if-IsSpared :
      (b : Bool) (r t : Result A) → IsSpared r → IsSpared t → IsSpared (if b then r else t)
  if-IsSpared true r t h k = h
  if-IsSpared false r t h k = k

  pub if-Spares : (b : Bool) (g h : Gen A) → Spares g → Spares h → Spares (if b then g else h)
  if-Spares true g h p q = p
  if-Spares false g h p q = q

pub guard-IsSpared : (b : Bool) (e : Error) → e ≢ exhausted → IsSpared (guard b e)
guard-IsSpared true e h = tt
guard-IsSpared false e h = h

pub or_raise-IsSpared {ℓ} :
    {A : Type ℓ} (e : Error) (o : Option A) → e ≢ exhausted → IsSpared (or_raise e o)
or_raise-IsSpared e none h = h
or_raise-IsSpared e (some a) h = tt

-- Where a call is spared, it does not raise for want of fuel.
pub IsSpared-exhausted {ℓ} : {A : Type ℓ} (r : Result A) → IsSpared r → r ≢ err exhausted
IsSpared-exhausted (ok a) h e = cc
IsSpared-exhausted (err x) h e = h (cc)
