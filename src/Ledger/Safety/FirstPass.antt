-- ===== src/Ledger/Safety/FirstPass.antt =====
-- The first loop of `schedule` hands out nothing, and its ready stages are distinct and own nothing.
use mathlib.Core.List.{Nodup, Nodup-cons, append-nil}
use mathlib.Core.List.Perm
use orchestrator_engine.Prelude.{
  ℕ, String, ◌≡◌, refl, sym, subst, inl, inr, true, Option, none, some, List, [], ◌∷◌, ◌++◌, All,
  Bool-cases,
}
use orchestrator_engine.Ledger.State.{State, Stage, Notice, World, Ledger}
use orchestrator_engine.Ledger.Save.{now, tick, advance}
use orchestrator_engine.Ledger.Outcomes.{in_state}
use orchestrator_engine.Ledger.Held.Bags.{middle-perm}
use orchestrator_engine.Ledger.Schedule.Ready.{
  Verdict, verdict, unready, Split, mark_ready, sort_out, sort_all, first_pass,
}
use orchestrator_engine.Ledger.Invariant.{
  ids, IsFree, IsFree-Agrees, Calm, Calm-trans, Calm-self, Calm-of_stages, event-Calm, save-Calm,
  All-IsFree-Calm,
}

-- A stage that waits is free.
abbrev pub IsFreeWaiting : Ledger → Stage → Type 0
IsFreeWaiting l s = in_state State.waiting s ≡ true → IsFree l s

pub record SplitInv (start : Ledger) (rest : List Stage) (sp : Split) : Type 0 where
  pub calm : Calm start sp.ledger
  pub free : All (IsFreeWaiting sp.ledger) rest
  pub ready : All (IsFree sp.ledger) sp.ready
  pub apart : Nodup (ids rest ++ ids sp.ready)

All-IsFreeWaiting-Calm :
    {l m : Ledger}
    → Calm l m
    → (xs : List Stage) → All (IsFreeWaiting l) xs
    → All (IsFreeWaiting m) xs
All-IsFreeWaiting-Calm c [] h = tt
All-IsFreeWaiting-Calm c (x ∷ xs) (f, h) =
    (λ e. let (mine, row) = f e in (mine, c.owns x.id [] row), All-IsFreeWaiting-Calm c xs h)

-- A step that saves the first of the rest and leaves the ready ones.
dropped-SplitInv :
    (start : Ledger) (s : Stage) (rest : List Stage) (sp : Split) (idle : List Stage) (m : Ledger)
    → SplitInv start (s ∷ rest) sp
    → Calm sp.ledger m
    → SplitInv start rest (record sp { idle = idle; ledger = m })
dropped-SplitInv start s rest sp idle m v c = record {
  calm = Calm-trans v.calm c;
  free = All-IsFreeWaiting-Calm c rest v.free.1;
  ready = All-IsFree-Calm c sp.ready v.ready;
  apart = (Nodup-cons.0 v.apart).1;
}

mark_ready-Calm :
    (w : World) (s : Stage) (n : Option ℕ) (l : Ledger)
    → IsFree l s
    → Calm l (mark_ready w s n l).1
      × IsFree (mark_ready w s n l).1 (mark_ready w s n l).0
      × ((mark_ready w s n l).0.id ≡ s.id)
unfolding mark_ready
mark_ready-Calm w s (some n) l f = (Calm-self l, f, refl)
mark_ready-Calm w s none l f =
    let counted = Calm-of_stages l (advance (tick l)) refl refl in
    let calm = Calm-trans counted (event-Calm w s.id Notice.ready (advance (tick l))) in
    (calm, (f.0, calm.owns s.id [] f.1), refl)

sort_out-SplitInv :
    (w : World) (start : Ledger) (v : Verdict) (s : Stage) (rest : List Stage) (sp : Split)
    → IsFree sp.ledger s
    → SplitInv start (s ∷ rest) sp
    → SplitInv start rest (sort_out w v s sp)
unfolding sort_out
sort_out-SplitInv w start Verdict.is_ready s rest sp f v =
    let (calm, free, same_id) = mark_ready-Calm w s s.ready_seq sp.ledger f in
    record {
      calm = Calm-trans v.calm calm;
      free = All-IsFreeWaiting-Calm calm rest v.free.1;
      ready = (free, All-IsFree-Calm calm sp.ready v.ready);
      apart =
          subst (λ id. Nodup (ids rest ++ id ∷ ids sp.ready)) (sym same_id)
            (Perm.nodup ∣ middle-perm s.id (ids rest) (ids sp.ready) ∣₁ v.apart);
    }
sort_out-SplitInv w start (Verdict.waits reason) s rest sp f v =
    dropped-SplitInv start s rest sp _ _ v
      (save-Calm w (unready s reason) sp.ledger (IsFree-Agrees sp.ledger s f))
sort_out-SplitInv w start Verdict.skips s rest sp f v =
    let skipped = record (unready s "dependency_failed") {
      state = State.skipped;
      finished_at = some (now w sp.ledger);
    } in
    let counted = Calm-of_stages sp.ledger (tick sp.ledger) refl refl in
    dropped-SplitInv start s rest sp _ _ v
      (Calm-trans counted (save-Calm w skipped (tick sp.ledger) (counted.owns s.id [] f.1)))

sort_all-SplitInv :
    (w : World) (unavailable : List String) (start : Ledger) (rest : List Stage) (sp : Split)
    → SplitInv start rest sp
    → SplitInv start [] (sort_all w unavailable rest sp)
unfolding sort_all
sort_all-SplitInv w unavailable start [] sp v = v
sort_all-SplitInv w unavailable start (s ∷ ss) sp v = elim (Bool-cases (in_state State.waiting s)) [
  | inl waits ↦
      let next_split = sort_out w (verdict sp.ledger unavailable s) s sp in
      rw waits (
        sort_all-SplitInv w unavailable start ss next_split
          (sort_out-SplitInv w start (verdict sp.ledger unavailable s) s ss sp (v.free.0 waits) v))
  | inr other ↦ rw other (
      sort_all-SplitInv w unavailable start ss sp
        (dropped-SplitInv start s ss sp sp.idle sp.ledger v (Calm-self sp.ledger)))
]

-- The ready stages after the loop.
pub first_pass-SplitInv :
    (w : World) (unavailable : List String) (stages : List Stage) (l : Ledger)
    → All (IsFreeWaiting l) stages
    → Nodup (ids stages)
    → SplitInv l [] (first_pass w unavailable stages l)
unfolding first_pass
first_pass-SplitInv w unavailable stages l h n =
    sort_all-SplitInv w unavailable l stages _ (record {
      calm = Calm-self l;
      free = h;
      ready = tt;
      apart = subst Nodup (sym (append-nil (ids stages))) n;
    })
