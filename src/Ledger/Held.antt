-- ===== src/Ledger/Held.antt =====
-- What `save` does to the allocations that the ledger has handed out.
pub mod Bags
pub mod Weaken
use mathlib.Core.List.{append_assoc, append-nil}
use orchestrator_engine.Prelude.{
  String, ◌≡◌, refl, sym, ap, ◌∙◌, inl, inr, Bool, true, false, Option, none, some, List, [], ◌∷◌,
  ◌++◌, arith, ◌==◌, if◌then◌else◌, map, filter, not, lookup, put, lookup-put, Dict, eq_of_some,
  Bool-cases, subst,
}
use orchestrator_engine.Resources.Claims.{Allocation}
use orchestrator_engine.Ledger.State.{
  is_terminal, is_owning, Stage, World, Ledger, values, own, owned, owners, active_stages, held,
}
use orchestrator_engine.Ledger.Save.{write, event, is_changed, save}

owners-owned :
    (ss : List Stage)
    → map (λ s. s.allocation) (owners (filter (λ s. not (is_terminal s.state)) ss)) ≡ owned ss
unfolding owners owned
owners-owned [] = refl
owners-owned (s ∷ ss) = ground (arith, owners-owned ss)

-- The allocations that the scheduler starts from are those held.
pub active-held : (l : Ledger) → map (λ s. s.allocation) (owners (active_stages l)) ≡ held l
unfolding active_stages held
active-held l = owners-owned (values l.stages)

-- One row is replaced, and the others keep their places.
pub owned-put :
    (id : String) (r s : Stage) (rows : Dict Stage)
    → lookup id rows ≡ some r
    → (before after : List Allocation) × (owned (values rows) ≡ before ++ (own r ++ after))
      × (owned (values (put id s rows)) ≡ before ++ (own s ++ after))
unfolding owned values lookup put
owned-put id r s [] e = cc
owned-put id r s ((k, t) ∷ rows) e = elim (Bool-cases (k == id)) [
  | inl hit ↦
      let same : t ≡ r = eq_of_some (rw hit at e) in
      ([], owned (values rows), ap (λ x. own x ++ owned (values rows)) same, rw hit)
  | inr miss ↦
      let (before, after, old, new) = owned-put id r s rows (rw miss at e) in
      (
        own t ++ before,
        after,
        ap (◌++◌ (own t)) old ∙ sym (append_assoc (own t) before (own r ++ after)),
        rw miss (ap (◌++◌ (own t)) new ∙ sym (append_assoc (own t) before (own s ++ after))),
      )
]

-- A row under a new key stands at the end.
pub owned-put_new :
    (id : String) (s : Stage) (rows : Dict Stage)
    → lookup id rows ≡ none
    → owned (values (put id s rows)) ≡ owned (values rows) ++ own s
unfolding owned values lookup put
owned-put_new id s [] e = append-nil (own s)
owned-put_new id s ((k, t) ∷ rows) e = elim (Bool-cases (k == id)) [
  | inl hit ↦ absurd (some-none (rw hit at e))
  | inr miss ↦ rw miss (
      ap (◌++◌ (own t)) (owned-put_new id s rows (rw miss at e))
      ∙ sym (append_assoc (own t) (owned (values rows)) (own s)))
]
  where
    some-none : some t ≡ none → ⊥
    some-none q = cc

module _ (w : World) (s : Stage) (l : Ledger) where
  -- The stage that `save` leaves owns what it was given with, under its id.
  pub save-own : own (save w s l).0 ≡ own s
  unfolding save
  save-own = ground arith

  pub save-id : (save w s l).0.id ≡ s.id
  unfolding save
  save-id = ground arith

  pub save-allocation : (save w s l).0.allocation ≡ s.allocation
  unfolding save
  save-allocation = ground arith

  pub save-registry : (save w s l).1.registry ≡ l.registry
  unfolding save write event
  save-registry = ground arith

  pub save-stages : (save w s l).1.stages ≡ put s.id (save w s l).0 l.stages
  unfolding save write event
  save-stages = elim (Bool-cases (is_changed (lookup s.id l.stages) s)) [
    | inl changed ↦ rw changed
    | inr same ↦ rw same
  ]

  -- Over an old row, the part of that stage in what is held is replaced.
  pub held-save :
      (t : Stage)
      → lookup s.id l.stages ≡ some t
      → (before after : List Allocation) × (held l ≡ before ++ (own t ++ after))
        × (held (save w s l).1 ≡ before ++ (own s ++ after))
  unfolding held
  held-save t e =
      let (before, after, old, new) = owned-put s.id t (save w s l).0 l.stages e in
      (
        before,
        after,
        old,
        ap (λ rows. owned (values rows)) save-stages
            ∙ new
            ∙ ap (λ mine. before ++ (mine ++ after)) save-own,
      )

  pub lookup-save :
      (id : String)
      → lookup id (save w s l).1.stages
        ≡ (if s.id == id then some (save w s l).0 else lookup id l.stages)
  lookup-save id = ap (lookup id) save-stages ∙ lookup-put s.id id (save w s l).0 l.stages
