-- ===== src/Ledger/Forward/Rounds.antt =====
-- The second loop of `schedule` leaves the rows of other stages alone.
use orchestrator_engine.Prelude.{
  ℕ, suc, String, ◌≡◌, refl, sym, ap, subst, ◌∙◌, inl, inr, false, Option, none, some, List, [],
  ◌∷◌, ◌++◌, ◌==◌, arith, All, All-snoc, Bool-cases, Dict, lookup, keys, if◌then◌else◌,
}
use orchestrator_engine.Result.{ok, next, traverse, >>=-eq-ok, eq_of_ok}
use orchestrator_engine.Resources.Claims.{Allocation}
use orchestrator_engine.Resources.Demands.{demands}
use orchestrator_engine.Resources.Assignments.{assignments}
use orchestrator_engine.Ledger.State.{Stage, Notice, World, Ledger}
use orchestrator_engine.Ledger.Save.{event, save}
use orchestrator_engine.Ledger.Held.{lookup-save, save-id}
use orchestrator_engine.Ledger.Schedule.{
  Round, earlier, bypass, with_grant, draw_tokens, enact, grant, with_leaf, beside, tried,
  try_stage, try_all, count_stages,
}
use orchestrator_engine.Ledger.Schedule.Waiting.{
  Context, candidate, alone, blockers, protect, put_back, reason_of, keep_waiting,
}

module _ (w : World) (id : String) where
  abbrev pub IsApart : Stage → Type 0
  IsApart t = (t.id == id) ≡ false

  -- The row is as it was.
  abbrev pub Untouched : Ledger → Ledger → Type 0
  Untouched l m = lookup id m.stages ≡ lookup id l.stages

  pub save-Untouched : (s : Stage) (l : Ledger) → IsApart s → Untouched l (save w s l).1
  save-Untouched s l h = lookup-save w s l id ∙ other h
    where
      other :
          (s.id == id) ≡ false
          → (if s.id == id then some (save w s l).0 else lookup id l.stages) ≡ lookup id l.stages
      other e = rw e refl

  pub event-Untouched :
      (subject : String) (n : Notice) (l : Ledger) → Untouched l (event w subject n l)
  unfolding event
  event-Untouched subject n l = refl

  pub saved-IsApart : (s : Stage) (l : Ledger) → IsApart s → IsApart (save w s l).0
  saved-IsApart s l h = ap (λ x. x == id) (save-id w s l) ∙ h

  bypass-Untouched :
      (s : Stage) (ts : List Stage) (l : Ledger)
      → All IsApart ts
      → All IsApart (bypass w s ts l).0 × Untouched l (bypass w s ts l).1
  unfolding bypass
  bypass-Untouched s [] l h = (tt, refl)
  bypass-Untouched s (t ∷ ts) l (p, h) = elim (Bool-cases (earlier t s)) [
    | inl longer ↦
        let t' = record t { bypass_count = suc t.bypass_count } in
        let (rest, kept) = bypass-Untouched s ts (save w t' l).1 h in
        rw longer ((saved-IsApart t' l p, rest), kept ∙ save-Untouched t' l p)
    | inr newer ↦ let (rest, kept) = bypass-Untouched s ts l h in rw newer ((p, rest), kept)
  ]

  enact-Untouched :
      (s : Stage) (chosen : Allocation) (incarnations : Dict String) (capacities : Dict ℕ)
      (r : Round)
      → IsApart s
      → All IsApart r.passed_over
      → All IsApart (enact w s chosen incarnations capacities r).passed_over
        × Untouched r.ledger (enact w s chosen incarnations capacities r).ledger
  unfolding enact with_grant event
  enact-Untouched s chosen incarnations capacities r p h =
      let t = with_grant w s chosen incarnations r.ledger in
      let (s', l) = save w t (draw_tokens r.ledger) in
      let (passed, kept) =
        bypass-Untouched s' r.passed_over
          (event w s.id (Notice.granted chosen s'.epoch capacities) l) h in
      (passed, kept ∙ save-Untouched t (draw_tokens r.ledger) p)

  protect-Untouched :
      (s : Stage) (found : Option Allocation) (l : Ledger) → Untouched l (protect w s found l)
  unfolding event
  protect-Untouched s none l = refl
  protect-Untouched s (some a) l = ground arith

  abbrev Goes : Round → Round → Type 0
  Goes r q = All IsApart q.passed_over × Untouched r.ledger q.ledger

  tried-Untouched :
      (cx : Context) (counts : Dict ℕ) (s : Stage) (r q : Round) (chosen : Option Allocation)
      → IsApart s
      → All IsApart r.passed_over
      → tried w cx counts s r chosen ≡ ok q
      → Goes r q
  unfolding tried grant keep_waiting put_back
  tried-Untouched cx counts s r q (some a) p h e =
      let (leaves, _, e) = >>=-eq-ok (traverse (with_leaf cx.registry) (keys a)) _ e in
      subst (Goes r) (eq_of_ok e) (enact-Untouched s a _ _ r p h)
  tried-Untouched cx counts s r q none p h e =
      let ((s', protection, l), waits, e) =
        >>=-eq-ok (keep_waiting w cx counts s r.active r.protection r.ledger) _ e in
      let (found, _, g) = >>=-eq-ok (candidate cx counts s r.protection) _ waits in
      let (possible, _, g) = >>=-eq-ok (next (assignments (alone cx) s.needs)) _ g in
      let (ds, _, g) = >>=-eq-ok (demands cx.registry s.needs) _ g in
      let (blocking, _, g) = >>=-eq-ok (blockers cx.registry ds r.active) _ g in
      let t = record s {
        protection = found;
        reason = some (reason_of possible);
        blockers = blocking;
      } in
      let before = protect w s found r.ledger in
      let s_same : (save w t before).0 ≡ s' = ap (λ x. x.0) (eq_of_ok g) in
      let l_same : (save w t before).1 ≡ l = ap (λ x. x.2) (eq_of_ok g) in
      subst (Goes r) (eq_of_ok e) (
        All-snoc IsApart r.passed_over s' h (subst IsApart s_same (saved-IsApart t before p)),
        subst (Untouched r.ledger) l_same
            (save-Untouched t before p ∙ protect-Untouched s found r.ledger),
      )

  pub try_all-Untouched :
      (cx : Context) (ss : List Stage) (r q : Round)
      → All IsApart ss
      → All IsApart r.passed_over
      → try_all w cx ss r ≡ ok q
      → Untouched r.ledger q.ledger
  unfolding try_all try_stage
  try_all-Untouched cx [] r q p h e = ap (λ x. lookup id x.ledger.stages) (sym (eq_of_ok e))
  try_all-Untouched cx (s ∷ ss) r q (p, ps) h e =
      let (r', tried_one, e) = >>=-eq-ok (try_stage w cx s ss r) _ e in
      let (counts, _, g) =
        >>=-eq-ok (count_stages cx.registry (cx.idle ++ r.passed_over ++ ss) []) _ tried_one in
      let (chosen, _, g) = >>=-eq-ok (next (assignments (beside cx counts r) s.needs)) _ g in
      let (passed, kept) = tried-Untouched cx counts s r r' chosen p h g in
      try_all-Untouched cx ss r' q ps passed e ∙ kept
