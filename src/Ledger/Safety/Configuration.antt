-- ===== src/Ledger/Safety/Configuration.antt =====
-- `configure` and the allocations that are out.
use orchestrator_engine.Prelude.{
  String, ◌≡◌, refl, sym, ap, subst, ◌∙◌, inl, inr, ◌⊎◌, Bool, true, Option, none, some, List, [],
  ◌∷◌, map, all, arith, lookup, keys, All, Bool-cases, Option-cases, eq_iff, eq_of_some, ◌==◌,
}
use orchestrator_engine.Json.{Json}
use orchestrator_engine.Result.{ok, >>=-eq-ok, ok-injective}
use orchestrator_engine.Resources.Registry.{Registry, Entry}
use orchestrator_engine.Resources.Claims.{Claim, Allocation, occupied, total_units}
use orchestrator_engine.Resources.Claims.Safety.{LeafIsSafe}
use orchestrator_engine.Resources.Normalize.{normalize_registry}
use orchestrator_engine.Resources.Normalize.Normal.{
  IsNormal, IsNormalEntry, Alike, eq-Alike, normalize_registry-IsNormal,
}
use orchestrator_engine.Ledger.State.{
  is_owning, Stage, Notice, World, Ledger, active_stages, owners, held,
}
use orchestrator_engine.Ledger.Save.{event}
use orchestrator_engine.Ledger.Held.{active-held}
use orchestrator_engine.Ledger.Requests.{same_entry, check_active, check_stages, configure}
use orchestrator_engine.Ledger.Invariant.{IsSound, Calm-IsSound, event-Calm}
use orchestrator_engine.Ledger.Safety.Operations.{after_guard}

all-keys :
    (p : String → Bool) (leaf : String) (c : Claim) (a : Allocation)
    → all p (keys a) ≡ true
    → lookup leaf a ≡ some c
    → p leaf ≡ true
unfolding keys lookup
all-keys p leaf c [] h e = cc
all-keys p leaf c ((j, d) ∷ a) h e = elim (Bool-cases (j == leaf)) [
  | inl same ↦ ground (arith, eq_iff j leaf)
  | inr other ↦ all-keys p leaf c a (ground arith) (rw other at e)
]

-- A leaf that a stage holds has the entry that it had.
check_stages-leaf :
    (new old : Registry) (leaf : String) (ss : List Stage)
    → check_stages new old ss ≡ ok tt
    → (occupied leaf (map (λ s. s.allocation) (owners ss)) ≡ [])
      ⊎ (same_entry (lookup leaf new) (lookup leaf old) ≡ true)
unfolding check_stages owners occupied check_active
check_stages-leaf new old leaf [] h = inl refl
check_stages-leaf new old leaf (s ∷ ss) h =
    let (_, checked, rest) = >>=-eq-ok (check_active new old s) _ h in
    elim (check_stages-leaf new old leaf ss rest) [
      | inr same ↦ inr same
      | inl none_behind ↦ elim (Bool-cases (is_owning s.state)) [
        | inr idle ↦ inl (ground arith)
        | inl owning ↦ elim (Option-cases (lookup leaf s.allocation)) [
          | inl free ↦ inl (ground arith)
          | inr (c, holds) ↦ inr (
              all-keys (λ x. same_entry (lookup x new) (lookup x old)) leaf c s.allocation
                (after_guard _ _ _ tt checked).0 holds)
        ]
      ]
    ]

lookup-All :
    (P : Entry → Type 0) (leaf : String) (e : Entry) (reg : Registry)
    → All (λ x. P x.1) reg
    → lookup leaf reg ≡ some e
    → P e
unfolding lookup
lookup-All P leaf e [] h at = cc
lookup-All P leaf e ((j, f) ∷ reg) (p, h) at = elim (Bool-cases (j == leaf)) [
  | inl hit ↦ subst P (eq_of_some (rw hit at at)) p
  | inr miss ↦ lookup-All P leaf e reg h (rw miss at at)
]

Alike-LeafIsSafe :
    (e f : Entry) (cs : List Claim) → Alike e f → LeafIsSafe (some f) cs → LeafIsSafe (some e) cs
Alike-LeafIsSafe (Entry.resource l) (Entry.resource m) cs same (total, share) = (omega arith, share)
Alike-LeafIsSafe (Entry.resource l) (Entry.selector k ms fs) cs same safe = absurd same
Alike-LeafIsSafe (Entry.selector k ms fs) (Entry.resource m) cs same safe = absurd same
Alike-LeafIsSafe (Entry.selector k ms fs) (Entry.selector j ns gs) cs same safe = safe

same_entry-LeafIsSafe :
    (new old : Registry) (leaf : String) (cs : List Claim) (o p : Option Entry)
    → IsNormal new
    → IsNormal old
    → lookup leaf new ≡ o
    → lookup leaf old ≡ p
    → same_entry o p ≡ true
    → LeafIsSafe p cs
    → LeafIsSafe o cs
unfolding same_entry
same_entry-LeafIsSafe new old leaf cs none none n m a b same safe = safe
same_entry-LeafIsSafe new old leaf cs none (some f) n m a b same safe = cc
same_entry-LeafIsSafe new old leaf cs (some e) none n m a b same safe = cc
same_entry-LeafIsSafe new old leaf cs (some e) (some f) n m a b same safe =
    Alike-LeafIsSafe e f cs
      (eq-Alike e f (lookup-All IsNormalEntry leaf e new n a)
        (lookup-All IsNormalEntry leaf f old m b) same)
      safe

pub LeafIsSafe-none : (o : Option Entry) (cs : List Claim) → cs ≡ [] → LeafIsSafe o cs
unfolding total_units
LeafIsSafe-none none cs e = e
LeafIsSafe-none (some (Entry.selector k ms fs)) cs e = e
LeafIsSafe-none (some (Entry.resource l)) [] e = (omega arith, tt)
LeafIsSafe-none (some (Entry.resource l)) (c ∷ cs) e = cc

-- Over a sound ledger with a normal registry, a `configure` that returns leaves a sound ledger with
-- a normal registry: what is held stays safe under the new entries.
pub configure-IsSound :
    (w : World) (raw : Json) (l m : Ledger)
    → IsSound l
    → IsNormal l.registry
    → configure w raw l ≡ ok m
    → IsSound m × IsNormal m.registry
unfolding configure event held
configure-IsSound w raw l m v normal h =
    let (new, made, h1) = >>=-eq-ok (normalize_registry raw) _ h in
    let (_, checked, h2) = >>=-eq-ok (check_stages new l.registry (active_stages l)) _ h1 in
    let fresh = normalize_registry-IsNormal raw new made in
    let l1 = record l { registry = new } in
    subst (λ n. IsSound n × IsNormal n.registry) (ok-injective h2)
      (
        Calm-IsSound (event-Calm w "registry" (Notice.configured new) l1) (record {
          keyed = v.keyed;
          dict = v.dict;
          safe = λ leaf. elim (check_stages-leaf new l.registry leaf (active_stages l) checked) [
            | inl out ↦
                LeafIsSafe-none (lookup leaf new) (occupied leaf (held l))
                  (ap (occupied leaf) (sym (active-held l)) ∙ out)
            | inr same ↦
                same_entry-LeafIsSafe new l.registry leaf (occupied leaf (held l)) (lookup leaf new)
                  (lookup leaf l.registry) fresh normal refl refl same (v.safe leaf)
          ];
        }),
        fresh,
      )
