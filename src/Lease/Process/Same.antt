-- ===== src/Lease/Process/Same.antt =====
-- What makes two processes the same on Linux.
use orchestrator_engine.Prelude.{
  ℕ, String, ◌≡◌, refl, sym, ap, subst, ◌∙◌, ◌↔◌, Bool, true, not, ◌&&◌, Option, none, some, ◌==◌,
  arith, eqb, eq_of_test, test_self, if◌then◌else◌,
}
use orchestrator_engine.Json
use orchestrator_engine.Json.{Json, Fields, ℤ}
use orchestrator_engine.Lease.Identity
use orchestrator_engine.Lease.Identity.{identity_matches}
use orchestrator_engine.Lease.Process.{Host, linux_identity, with_boot}

-- The boots, where both are known, are the same.
abbrev pub SameBoot : Option String → Option String → Type 0
SameBoot (some a) (some b) = a ≡ b
SameBoot _ _ = Unit

int_eq-eq : (a b : ℤ) → Json.int_eq a b ≡ true → a ≡ b
unfolding Json.int_eq
int_eq-eq (ℤ.pos m) (ℤ.pos n) h = ap ℤ.pos (ground arith)
int_eq-eq (ℤ.negsuc m) (ℤ.negsuc n) h = ap ℤ.negsuc (ground arith)
int_eq-eq (ℤ.pos m) (ℤ.negsuc n) h = cc
int_eq-eq (ℤ.negsuc m) (ℤ.pos n) h = cc

int_eq_self : (a : ℤ) → Json.int_eq a a ≡ true
unfolding Json.int_eq
int_eq_self (ℤ.pos m) = ground arith
int_eq_self (ℤ.negsuc m) = ground arith

abbrev same_boot_id : Option String → Option String → Bool
same_boot_id (some a) (some b) = a == b
same_boot_id _ _ = true

regroup : (ab c d e : Bool) → (c && d) ≡ e → (ab && c && d) ≡ (ab && e)
regroup ab c d e h = ground arith

-- The part of the test that looks at the boots.
boot_part :
    (x y : Option String)
    → (Json.eq
          (Json.get_or "machine_id" Json.null (with_boot x))
          (Json.get_or "machine_id" Json.null (with_boot y))
        && (if not (Identity.is_null (Json.get_or "boot_id" Json.null (with_boot x)))
              && not (Identity.is_null (Json.get_or "boot_id" Json.null (with_boot y)))
            then Json.eq
                (Json.get_or "boot_id" Json.null (with_boot x))
                (Json.get_or "boot_id" Json.null (with_boot y))
            else true))
      ≡ same_boot_id x y
unfolding Json.get_or Json.eq with_boot
boot_part none none = refl
boot_part none (some y) = refl
boot_part (some x) none = refl
boot_part (some x) (some y) = refl

matches-tests :
    (h g : Host) (n m p q : ℕ) (st st' : String) (a b : ℤ)
    → identity_matches
        (Json.obj (linux_identity h n p (st, a)))
        (Json.obj (linux_identity g m q (st', b)))
      ≡ (eqb p q && Json.int_eq a b && same_boot_id (h.boot_id n) (g.boot_id m))
unfolding identity_matches Identity.same_source Identity.same_number Identity.same_boot
    linux_identity Json.get_or Json.eq Json.int_eq
matches-tests h g n m p q st st' a b = regroup _ _ _ _ (boot_part (h.boot_id n) (g.boot_id m))

same_boot_id-SameBoot : (x y : Option String) → same_boot_id x y ≡ true → SameBoot x y
same_boot_id-SameBoot none y h = tt
same_boot_id-SameBoot (some x) none h = tt
same_boot_id-SameBoot (some x) (some y) h = eq_of_test x y h

SameBoot-same_boot_id : (x y : Option String) → SameBoot x y → same_boot_id x y ≡ true
SameBoot-same_boot_id none y h = refl
SameBoot-same_boot_id (some x) none h = refl
SameBoot-same_boot_id (some x) (some y) h = subst (λ z. (x == z) ≡ true) h (test_self x)

-- Two looks at processes of a Linux host match exactly when they have the same pid and the same
-- start time and no two known boots differ, whatever the states of the processes are.
pub identity_matches_iff :
    (h g : Host) (n m p q : ℕ) (st st' : String) (a b : ℤ)
    → (identity_matches
          (Json.obj (linux_identity h n p (st, a)))
          (Json.obj (linux_identity g m q (st', b)))
        ≡ true)
      ↔ ((p ≡ q) × (a ≡ b) × SameBoot (h.boot_id n) (g.boot_id m))
identity_matches_iff h g n m p q st st' a b = (matched, as_equal)
  where
    pid-eq : eqb p q ≡ true → p ≡ q
    pid-eq e = ground arith

    eq-pid : p ≡ q → eqb p q ≡ true
    eq-pid e = ground arith

    parted : (x y z : Bool) → (x && y && z) ≡ true → (x ≡ true) × (y ≡ true) × (z ≡ true)
    parted x y z e = (ground arith, ground arith, ground arith)

    joined : (x y z : Bool) → x ≡ true → y ≡ true → z ≡ true → (x && y && z) ≡ true
    joined x y z e f g = ground arith

    matched :
        identity_matches
            (Json.obj (linux_identity h n p (st, a)))
            (Json.obj (linux_identity g m q (st', b)))
          ≡ true
        → (p ≡ q) × (a ≡ b) × SameBoot (h.boot_id n) (g.boot_id m)
    matched e =
        let (pid, start, boot) =
          parted (eqb p q) (Json.int_eq a b) (same_boot_id (h.boot_id n) (g.boot_id m))
            (sym (matches-tests h g n m p q st st' a b) ∙ e) in
        (pid-eq pid, int_eq-eq a b start, same_boot_id-SameBoot (h.boot_id n) (g.boot_id m) boot)

    as_equal :
        (p ≡ q) × (a ≡ b) × SameBoot (h.boot_id n) (g.boot_id m)
        → identity_matches
            (Json.obj (linux_identity h n p (st, a)))
            (Json.obj (linux_identity g m q (st', b)))
          ≡ true
    as_equal (pid, start, boot) =
        matches-tests h g n m p q st st' a b
        ∙ joined (eqb p q) (Json.int_eq a b) (same_boot_id (h.boot_id n) (g.boot_id m)) (eq-pid pid)
            (subst (λ z. Json.int_eq a z ≡ true) start (int_eq_self a))
            (SameBoot-same_boot_id (h.boot_id n) (g.boot_id m) boot)
