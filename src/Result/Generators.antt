-- ===== src/Result/Generators.antt =====
-- A Python generator that ends: the values that it yields in order, and whether it returns or
-- raises behind them. A consumer that stops early never meets what stands behind.
use orchestrator_engine.Prelude.{Option, none, some, List, [], ◌∷◌}
use orchestrator_engine.Result.Errors.{Error, Result, ok, err}

pub data Gen {ℓ} (A : Type ℓ) : Type ℓ where
  stop : Gen A
  fail : Error → Gen A
  yield : A → Gen A → Gen A

module _ {ℓ} {A : Type ℓ} where
  -- next(generator, None)
  abbrev pub next : Gen A → Result (Option A)
  next stop = ok none
  next (fail e) = err e
  next (yield a g) = ok (some a)

  -- `yield from g; yield from h`
  unfoldable pub chain : Gen A → Gen A → Gen A
  chain stop h = h
  chain (fail e) h = fail e
  chain (yield a g) h = yield a (chain g h)

  -- A statement before the first yield that may raise.
  abbrev pub raising {κ} : {B : Type κ} → Result B → (B → Gen A) → Gen A
  raising (ok b) k = k b
  raising (err e) k = fail e

module _ {ℓ κ} {A : Type ℓ} {B : Type κ} where
  -- `for a in g: yield from f(a)`
  unfoldable pub each : Gen A → (A → Gen B) → Gen B
  each stop f = stop
  each (fail e) f = fail e
  each (yield a g) f = chain (f a) (each g f)

  -- `for a in list: yield from f(a)`
  unfoldable pub for_each : List A → (A → Gen B) → Gen B
  for_each [] f = stop
  for_each (a ∷ as') f = chain (f a) (for_each as' f)
