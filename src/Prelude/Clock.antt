-- ===== src/Prelude/Clock.antt =====
-- Clocks that never go back.
use Prim.Native.Nat.{ℕ, zero, suc, ◌+◌, ◌≤◌}
use mathlib.Core.Path.{◌≡◌, subst}
use native.Mathlib.Omega.{arith}

-- The documented behaviour of a monotonic clock, read at each step.
abbrev pub IsMonotone : (ℕ → ℕ) → Type 0
IsMonotone clock = (n : ℕ) → clock n ≤ clock (suc n)

pub monotone_later : (clock : ℕ → ℕ) → IsMonotone clock → (k n : ℕ) → clock n ≤ clock (k + n)
monotone_later clock mono zero n =
    let e : n ≡ zero + n = omega arith in subst (λ m. clock n ≤ clock m) e (omega arith)
monotone_later clock mono (suc k) n =
    let e : suc (k + n) ≡ suc k + n = omega arith in
    subst (λ m. clock n ≤ clock m) e (omega (arith, monotone_later clock mono k n, mono (k + n)))
