-- ===== src/Result/Yielding.antt =====
-- Predicates on all that a generator yields, and on what loops that may raise return.
use orchestrator_engine.Prelude.{◌≡◌, refl, subst, Option, none, some, List, [], ◌∷◌, All}
use orchestrator_engine.Result.Errors.{Result, ok, err, ◌>>=◌, >>=-eq-ok, traverse}
use orchestrator_engine.Result.Generators.{Gen, stop, fail, yield, next, chain, each, raising}

pub ok-injective {ℓ} : {A : Type ℓ} {a b : A} → ok a ≡ ok b → a ≡ b
ok-injective e = cc

-- Inversion of a step that may raise, give nothing, or go on.
pub >>=-eq-some {ℓ κ} :
    {A : Type ℓ} {B : Type κ} (m : Result (Option A)) (k : A → Result (Option B)) {b : B}
    → (m >>= λ o. elim o [ none ↦ ok none | some a ↦ k a ]) ≡ ok (some b)
    → (a : A) × (m ≡ ok (some a)) × (k a ≡ ok (some b))
>>=-eq-some (ok none) k e = cc
>>=-eq-some (ok (some a)) k e = (a, refl, e)
>>=-eq-some (err x) k e = cc

-- Before it returns or raises, the generator yields only values with the property.
abbrev pub Yields {ℓ κ} : {A : Type ℓ} → (A → Type κ) → Gen A → Type κ
Yields P stop = Unit
Yields P (fail e) = Unit
Yields P (yield a g) = P a × Yields P g

module _ {ℓ κ} {A : Type ℓ} (P : A → Type κ) where
  pub chain-Yields : (g h : Gen A) → Yields P g → Yields P h → Yields P (chain g h)
  unfolding chain
  chain-Yields stop h p q = q
  chain-Yields (fail e) h p q = tt
  chain-Yields (yield a g) h (p, ps) q = (p, chain-Yields g h ps q)

  pub next-Yields : (g : Gen A) (a : A) → Yields P g → next g ≡ ok (some a) → P a
  next-Yields stop a p e = cc
  next-Yields (fail x) a p e = cc
  next-Yields (yield b g) a (p, _) e = subst P (some_of e) p
    where
      some_of : next (yield b g) ≡ ok (some a) → b ≡ a
      some_of q = cc

  pub raising-Yields {μ} :
      {B : Type μ} (r : Result B) (k : B → Gen A)
      → ((b : B) → r ≡ ok b → Yields P (k b))
      → Yields P (raising r k)
  raising-Yields (ok b) k h = h b refl
  raising-Yields (err e) k h = tt

module _ {ℓ κ μ ν} {A : Type ℓ} {B : Type κ} (Q : A → Type μ) (P : B → Type ν) where
  pub each-Yields :
      (g : Gen A) (f : A → Gen B)
      → Yields Q g
      → ((a : A) → Q a → Yields P (f a))
      → Yields P (each g f)
  unfolding each
  each-Yields stop f q h = tt
  each-Yields (fail e) f q h = tt
  each-Yields (yield a g) f (q, qs) h =
      chain-Yields P (f a) (each g f) (h a q) (each-Yields g f qs h)

  pub traverse-All :
      (f : A → Result B) (xs : List A) {ys : List B}
      → ((x : A) (y : B) → f x ≡ ok y → P y)
      → traverse f xs ≡ ok ys
      → All P ys
  unfolding traverse
  traverse-All f [] {ys} h e = subst (All P) (ok-injective e) tt
  traverse-All f (x ∷ xs) {ys} h e =
      let (y, hd, e') = >>=-eq-ok (f x) _ e in
      let (zs, tl, e'') = >>=-eq-ok (traverse f xs) _ e' in
      subst (All P) (ok-injective e'') (h x y hd, traverse-All f xs h tl)

-- Nothing is asked of the values.
pub any-Yields {ℓ} : {A : Type ℓ} (g : Gen A) → Yields (λ _. Unit {0}) g
any-Yields stop = tt
any-Yields (fail e) = tt
any-Yields (yield a g) = (tt, any-Yields g)
