-- ===== src/Ledger/Invariant/Free.antt =====
-- The invariant, and stages whose rows own nothing: saving one that owns nothing changes nothing
-- of what is held.
use mathlib.Core.List.{Mem, mem-cons_self, mem-cons_of_mem}
use orchestrator_engine.Prelude.{
  String, ◌≡◌, sym, ap, subst, ◌∙◌, inl, inr, some, List, [], ◌∷◌, ◌++◌, ◌==◌, map, All, lookup,
  put, put-IsDict, IsDict, Dict, eq_of_some, eq_of_test, Bool-cases,
}
use orchestrator_engine.Resources.Claims.{Allocation}
use orchestrator_engine.Resources.Claims.Safety.{IsSafe}
use orchestrator_engine.Ledger.State.{Stage, World, Ledger, own, held}
use orchestrator_engine.Ledger.Save.{save}
use orchestrator_engine.Ledger.Held.{save-own, save-id, save-stages, held-save, lookup-save}

-- Each row stands under its stage's id, once, and what is held is safe.
pub record IsSound (l : Ledger) : Type 0 where
  pub keyed : All (λ e. e.1.id ≡ e.0) l.stages
  pub dict : IsDict l.stages
  pub safe : IsSafe l.registry (held l)

abbrev pub ids : List Stage → List String
ids = map λ s. s.id

-- The row of that id is there, and owns these allocations: none, or one.
abbrev pub RowOwns : Ledger → String → List Allocation → Type 0
RowOwns l id a = (t : Stage) × (lookup id l.stages ≡ some t) × (own t ≡ a)

abbrev pub IsFreeRow : Ledger → String → Type 0
IsFreeRow l id = RowOwns l id []

-- A stage that owns what its row owns.
abbrev pub Agrees : Ledger → Stage → Type 0
Agrees l s = RowOwns l s.id (own s)

abbrev pub IsFree : Ledger → Stage → Type 0
IsFree l s = (own s ≡ []) × IsFreeRow l s.id

pub IsFree-Agrees : (l : Ledger) (s : Stage) → IsFree l s → Agrees l s
IsFree-Agrees l s (mine, (t, e, free)) = (t, e, free ∙ sym mine)

keyed-put :
    (id : String) (s : Stage) (rows : Dict Stage)
    → s.id ≡ id
    → All (λ e. e.1.id ≡ e.0) rows
    → All (λ e. e.1.id ≡ e.0) (put id s rows)
unfolding put
keyed-put id s [] e h = (e, tt)
keyed-put id s ((k, t) ∷ rows) e (h, hs) = elim (Bool-cases (k == id)) [
  | inl same ↦ rw same (e, hs)
  | inr other ↦ rw other (h, keyed-put id s rows e hs)
]

module _ (w : World) (s : Stage) (l : Ledger) where
  -- Saving a stage that owns what its row owns changes nothing of what is held, nor of what any
  -- row owns.
  pub held-save-Agrees : Agrees l s → held (save w s l).1 ≡ held l
  held-save-Agrees (t, e, mine) =
      let (before, after, old, new) = held-save w s l t e in
      new ∙ ap (λ x. before ++ (x ++ after)) (sym mine) ∙ sym old

  pub RowOwns-save :
      (id : String) (a : List Allocation)
      → Agrees l s
      → RowOwns l id a
      → RowOwns (save w s l).1 id a
  RowOwns-save id a (u, f, mine) (t, e, theirs) = elim (Bool-cases (s.id == id)) [
    | inl same ↦
        let one : u ≡ t =
          eq_of_some (sym f ∙ ap (λ x. lookup x l.stages) (eq_of_test s.id id same) ∙ e) in
        (
          (save w s l).0,
          lookup-save w s l id ∙ rw same,
          save-own w s l ∙ sym mine ∙ ap (λ x. own x) one ∙ theirs,
        )
    | inr other ↦ (t, lookup-save w s l id ∙ rw other e, theirs)
  ]

  pub IsFree-save : IsFree l s → IsFree (save w s l).1 (save w s l).0
  IsFree-save f = (
    save-own w s l ∙ f.0,
    subst (IsFreeRow (save w s l).1) (sym (save-id w s l))
        (RowOwns-save s.id [] (IsFree-Agrees l s f) f.1),
  )

  -- Saving any stage leaves the rows of other ids.
  pub All-IsFree-save_apart :
      (xs : List Stage) → ¬ Mem s.id (ids xs) → All (IsFree l) xs → All (IsFree (save w s l).1) xs
  All-IsFree-save_apart [] apart h = tt
  All-IsFree-save_apart (x ∷ xs) apart ((own_x, (t, e, free)), h) =
      elim (Bool-cases (s.id == x.id)) [
        | inl same ↦ absurd (
            apart
              (subst (λ id. Mem id (ids (x ∷ xs))) (sym (eq_of_test s.id x.id same)) mem-cons_self))
        | inr other ↦ (
          (own_x, (t, lookup-save w s l x.id ∙ rw other e, free)),
          All-IsFree-save_apart xs (λ m. apart (mem-cons_of_mem x.id m)) h,
        )
      ]

  -- The rows stay keyed.
  pub keyed-save : All (λ e. e.1.id ≡ e.0) l.stages → All (λ e. e.1.id ≡ e.0) (save w s l).1.stages
  keyed-save h =
      subst (All (λ e. e.1.id ≡ e.0)) (sym (save-stages w s l))
        (keyed-put s.id (save w s l).0 l.stages (save-id w s l) h)

  pub IsDict-save : IsDict l.stages → IsDict (save w s l).1.stages
  IsDict-save h = subst IsDict (sym (save-stages w s l)) (put-IsDict s.id (save w s l).0 l.stages h)
