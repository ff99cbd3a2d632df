-- ===== src/Ledger/Safety/Rounds.antt =====
-- The second loop of `schedule`: every grant fits beside all that is held.
use mathlib.Core.Path.{subst₂, ap₂}
use mathlib.Core.List.{
  Permᴰ, Mem, Nodup, Nodup-cons, mem-append_left, mem-append_right, map-append, append_assoc,
}
use mathlib.Core.List.Perm
use mathlib.Core.List.Permᴰ
use orchestrator_engine.Prelude.{
  ℕ, suc, String, ◌≡◌, refl, sym, ap, subst, ◌∙◌, inl, inr, true, Option, none, some, List, [], ◌∷◌,
  ◌++◌, map, keys, All, All-snoc, Dict, Bool-cases,
}
use orchestrator_engine.Result.{ok, next, traverse, >>=-eq-ok, ok-injective, next-Yields}
use orchestrator_engine.Resources.Registry.{Registry}
use orchestrator_engine.Resources.Claims.{Allocation, compatible}
use orchestrator_engine.Resources.Claims.Safety.{IsSafe, IsPlaced, compatible-IsSafe}
use orchestrator_engine.Resources.Demands.{demands}
use orchestrator_engine.Resources.Assignments.{assignments}
use orchestrator_engine.Resources.Assignments.Admissible.{IsAdmissible, assignments-IsAdmissible}
use orchestrator_engine.Ledger.State.{Stage, Notice, World, Ledger, own, held}
use orchestrator_engine.Ledger.Save.{event, save}
use orchestrator_engine.Ledger.Held.{held-save, save-allocation, save-id, save-registry}
use orchestrator_engine.Ledger.Held.Bags.{IsSafe-perm, middle-perm, snoc-perm}
use orchestrator_engine.Ledger.Held.Weaken.{compatible-append}
use orchestrator_engine.Ledger.Schedule.{
  Round, earlier, bypass, with_grant, draw_tokens, enact, grant, count_stages, with_leaf, beside,
  tried, try_stage, try_all,
}
use orchestrator_engine.Ledger.Schedule.Waiting.{
  Context, alone, keep_waiting, put_back, protect, same_allocation, reason_of, candidate, blockers,
}
use orchestrator_engine.Ledger.Invariant.{
  IsSound, ids, IsFree, IsFree-Agrees, IsFreeRow, Calm, Calm-IsSound, Calm-trans, Calm-self,
  Calm-of_stages, event-Calm, save-Calm, All-IsFree-Calm, All-IsFree-save_apart, IsFree-save,
  keyed-save, IsDict-save,
}

-- The stages that are ready longer: they stay free, and keep their ids.
record Bypassed (l : Ledger) (ts : List Stage) (r : List Stage × Ledger) : Type 0 where
  calm : Calm l r.1
  free : All (IsFree r.1) r.0
  names : ids r.0 ≡ ids ts

bypass-Bypassed :
    (w : World) (s : Stage) (ts : List Stage) (l : Ledger)
    → All (IsFree l) ts
    → Bypassed l ts (bypass w s ts l)
unfolding bypass
bypass-Bypassed w s [] l h = record { calm = Calm-self l; free = tt; names = refl }
bypass-Bypassed w s (t ∷ ts) l (f, h) = elim (Bool-cases (earlier t s)) [
  | inl yes_earlier ↦
      let t' = record t { bypass_count = suc t.bypass_count } in
      let calm = save-Calm w t' l (IsFree-Agrees l t f) in
      let rest = bypass-Bypassed w s ts (save w t' l).1 (All-IsFree-Calm calm ts h) in
      rw yes_earlier (record {
        calm = Calm-trans calm rest.calm;
        free = (free_in rest.calm (save w t' l).0 (IsFree-save w t' l f), rest.free);
        names = ap₂ ◌∷◌ (save-id w t' l) rest.names;
      })
  | inr later ↦
      let rest = bypass-Bypassed w s ts l h in
      rw later (record {
        calm = rest.calm;
        free = (free_in rest.calm t f, rest.free);
        names = ap (◌∷◌ t.id) rest.names;
      })
]
  where
    free_in : {l m : Ledger} → Calm l m → (x : Stage) → IsFree l x → IsFree m x
    free_in c x (mine, row) = (mine, c.owns x.id [] row)

-- A grant that fits beside the held allocations keeps the ledger sound.
module _ (w : World) (s : Stage) (a : Allocation) (l : Ledger) where
  granted-held : own s ≡ a ∷ [] → IsFreeRow l s.id → Permᴰ (a ∷ held l) (held (save w s l).1)
  granted-held mine (t, e, free) =
      let (before, after, old, new) = held-save w s l t e in
      subst₂ Permᴰ (ap (◌∷◌ a) (sym (old ∙ ap (λ x. before ++ (x ++ after)) free)))
        (sym (new ∙ ap (λ x. before ++ (x ++ after)) mine)) (middle-perm a before after)

  granted-IsSound :
      own s ≡ a ∷ []
      → IsFreeRow l s.id
      → IsSafe l.registry (a ∷ held l)
      → IsSound l
      → IsSound (save w s l).1
  granted-IsSound mine row safe v = record {
    keyed = keyed-save w s l v.keyed;
    dict = IsDict-save w s l v.dict;
    safe =
        subst (λ reg. IsSafe reg (held (save w s l).1)) (sym (save-registry w s l))
          (IsSafe-perm l.registry (granted-held mine row) safe);
  }

abbrev pub allocations : List Stage → List Allocation
allocations = map λ s. s.allocation

-- What holds before and after each round of the loop; `rest` is still to be tried.
pub record RoundInv (reg : Registry) (rest : List Stage) (r : Round) : Type 0 where
  pub registry : r.ledger.registry ≡ reg
  pub sound : IsSound r.ledger
  pub same : Permᴰ (allocations r.active) (held r.ledger)
  pub free : All (IsFree r.ledger) rest
  pub passed : All (IsFree r.ledger) r.passed_over
  pub apart : Nodup (ids rest ++ ids r.passed_over)

module _ (w : World) (reg : Registry) (s : Stage) (a : Allocation) (incarnations : Dict String)
    (capacities : Dict ℕ) (rest : List Stage) (r : Round) (v : RoundInv reg (s ∷ rest) r) where
  -- The ledger before the save, the granted stage, and the ledger after it.
  abbrev drawn : Ledger
  drawn = draw_tokens r.ledger

  abbrev asked : Stage
  asked = with_grant w s a incarnations r.ledger

  abbrev noted : Ledger
  noted =
      event w s.id (Notice.granted a (save w asked drawn).0.epoch capacities) (save w asked drawn).1

  abbrev overtaken : List Stage × Ledger
  overtaken = bypass w (save w asked drawn).0 r.passed_over noted

  drawn-Calm : Calm r.ledger drawn
  drawn-Calm = Calm-of_stages r.ledger drawn refl refl

  asked-own : own asked ≡ a ∷ []
  unfolding with_grant
  asked-own = refl

  asked-allocation : asked.allocation ≡ a
  unfolding with_grant
  asked-allocation = refl

  asked-id : asked.id ≡ s.id
  unfolding with_grant
  asked-id = refl

  asked_row : IsFreeRow drawn asked.id
  asked_row = subst (IsFreeRow drawn) (sym asked-id) (drawn-Calm.owns s.id [] v.free.0.1)

  asked_apart : ¬ Mem asked.id (ids rest ++ ids r.passed_over)
  asked_apart =
      subst (λ id. ¬ Mem id (ids rest ++ ids r.passed_over)) (sym asked-id) (Nodup-cons.0 v.apart).0

  noted-Calm : Calm (save w asked drawn).1 noted
  noted-Calm = event-Calm w s.id _ (save w asked drawn).1

  noted-IsFree :
      (xs : List Stage) → ¬ Mem asked.id (ids xs) → All (IsFree r.ledger) xs → All (IsFree noted) xs
  noted-IsFree xs apart h =
      All-IsFree-Calm noted-Calm xs
        (All-IsFree-save_apart w asked drawn xs apart (All-IsFree-Calm drawn-Calm xs h))

  overtaken-Bypassed : Bypassed noted r.passed_over overtaken
  overtaken-Bypassed =
      bypass-Bypassed w (save w asked drawn).0 r.passed_over noted
        (noted-IsFree r.passed_over (λ m. asked_apart (mem-append_right (ids rest) m)) v.passed)

  enact-same : Permᴰ (allocations (r.active ++ (save w asked drawn).0 ∷ [])) (held overtaken.1)
  enact-same =
      Permᴰ.trans
        (subst (λ xs. Permᴰ xs (a ∷ allocations r.active)) (sym snoc)
          (snoc-perm a (allocations r.active)))
        (subst (λ xs. Permᴰ (a ∷ allocations r.active) xs) (sym later)
          (Permᴰ.trans
            (Permᴰ.cons refl (subst (Permᴰ (allocations r.active)) (sym drawn-Calm.same) v.same))
            (granted-held w asked a drawn asked-own asked_row)))
    where
      snoc : allocations (r.active ++ (save w asked drawn).0 ∷ []) ≡ allocations r.active ++ a ∷ []
      snoc =
          map-append (λ t. t.allocation) r.active ((save w asked drawn).0 ∷ [])
          ∙ ap (λ x. allocations r.active ++ x ∷ [])
              (save-allocation w asked drawn ∙ asked-allocation)

      later : held overtaken.1 ≡ held (save w asked drawn).1
      later = overtaken-Bypassed.calm.same ∙ noted-Calm.same

  -- What was chosen beside the active stages is safe beside all that is held.
  enact-IsSafe :
      compatible reg a (allocations r.active) ≡ ok true
      → IsPlaced reg a
      → IsSafe drawn.registry (a ∷ held drawn)
  enact-IsSafe fit placed =
      let known : IsSafe reg (held r.ledger) =
        subst (λ g. IsSafe g (held r.ledger)) v.registry v.sound.safe in
      let both : IsSafe reg (a ∷ allocations r.active) =
        compatible-IsSafe reg a (allocations r.active) placed fit
          (IsSafe-perm reg (Permᴰ.symm v.same) known) in
      subst₂ IsSafe (sym (drawn-Calm.registry ∙ v.registry)) (ap (◌∷◌ a) (sym drawn-Calm.same))
        (IsSafe-perm reg (Permᴰ.cons refl v.same) both)

  enact-RoundInv :
      compatible reg a (allocations r.active) ≡ ok true
      → IsPlaced reg a
      → RoundInv reg rest (enact w s a incarnations capacities r)
  unfolding enact
  enact-RoundInv fit placed = record {
    registry =
        overtaken-Bypassed.calm.registry
        ∙ noted-Calm.registry
        ∙ save-registry w asked drawn
        ∙ v.registry;
    sound = Calm-IsSound overtaken-Bypassed.calm (
        Calm-IsSound noted-Calm (
          granted-IsSound w asked a drawn asked-own asked_row (enact-IsSafe fit placed)
            (Calm-IsSound drawn-Calm v.sound)));
    same = enact-same;
    free =
        All-IsFree-Calm overtaken-Bypassed.calm rest
          (noted-IsFree rest (λ m. asked_apart (mem-append_left (ids r.passed_over) m)) v.free.1);
    passed = overtaken-Bypassed.free;
    apart =
        subst (λ xs. Nodup (ids rest ++ xs)) (sym overtaken-Bypassed.names)
          (Nodup-cons.0 v.apart).1;
  }

-- A stage that goes on waiting keeps its id, and owns nothing.
put_back-Calm :
    (w : World) (s : Stage) (found : Option Allocation) (reason : String) (blocking : List String)
    (l : Ledger)
    → IsFree l s
    → let (s', l') = put_back w s found reason blocking l in
      Calm l l' × IsFree l' s' × (s'.id ≡ s.id)
unfolding put_back
put_back-Calm w s found reason blocking l f =
    let waiting = record s { protection = found; reason = some reason; blockers = blocking } in
    let protected = protect-Calm w s found l in
    let free : IsFree (protect w s found l) waiting = (f.0, protected.owns s.id [] f.1) in
    (
      Calm-trans protected (
          save-Calm w waiting (protect w s found l)
            (IsFree-Agrees (protect w s found l) waiting free)),
      IsFree-save w waiting (protect w s found l) free,
      save-id w waiting (protect w s found l),
    )
  where
    protect-Calm :
        (w : World) (s : Stage) (found : Option Allocation) (l : Ledger)
        → Calm l (protect w s found l)
    protect-Calm w s none l = Calm-self l
    protect-Calm w s (some a) l = elim (Bool-cases (same_allocation a s.protection)) [
      | inl same ↦ rw same (Calm-self l)
      | inr other ↦ rw other (event-Calm w s.id _ l)
    ]

-- The stage and the ledger that `keep_waiting` returns are those of `put_back`.
keep_waiting-put_back :
    (w : World) (cx : Context) (counts : Dict ℕ) (s : Stage) (active : List Stage)
    (protection : List Allocation) (l : Ledger) (r : Stage × List Allocation × Ledger)
    → keep_waiting w cx counts s active protection l ≡ ok r
    → (found : Option Allocation) × (reason : String) × (blocking : List String) × ((r.0, r.2)
        ≡ put_back w s found reason blocking l)
unfolding keep_waiting
keep_waiting-put_back w cx counts s active protection l r e =
    let (found, _, e1) = >>=-eq-ok (candidate cx counts s protection) _ e in
    let (possible, _, e2) = >>=-eq-ok (next (assignments (alone cx) s.needs)) _ e1 in
    let (ds, _, e3) = >>=-eq-ok (demands cx.registry s.needs) _ e2 in
    let (blocking, _, e4) = >>=-eq-ok (blockers cx.registry ds active) _ e3 in
    (found, reason_of possible, blocking, ap (λ t. (t.0, t.2)) (sym (ok-injective e4)))

Nodup-snoc :
    (x : String) (xs ys : List String) → Nodup (x ∷ xs ++ ys) → Nodup (xs ++ (ys ++ x ∷ []))
Nodup-snoc x xs ys h =
    subst Nodup (append_assoc xs ys (x ∷ []))
      (Perm.nodup ∣ Permᴰ.symm (snoc-perm x (xs ++ ys)) ∣₁ h)

waiting-RoundInv :
    (w : World) (reg : Registry) (s : Stage) (rest : List Stage) (r : Round)
    (found : Option Allocation) (reason : String) (blocking : List String)
    (protection : List Allocation)
    → RoundInv reg (s ∷ rest) r
    → let (s', l) = put_back w s found reason blocking r.ledger in
      RoundInv reg rest
        (record r { passed_over = r.passed_over ++ s' ∷ []; protection = protection; ledger = l })
waiting-RoundInv w reg s rest r found reason blocking protection v =
    let (s', l) = put_back w s found reason blocking r.ledger in
    let (calm, free, same_id) = put_back-Calm w s found reason blocking r.ledger v.free.0 in
    record {
      registry = calm.registry ∙ v.registry;
      sound = Calm-IsSound calm v.sound;
      same = subst (Permᴰ (allocations r.active)) (sym calm.same) v.same;
      free = All-IsFree-Calm calm rest v.free.1;
      passed =
          All-snoc (IsFree l) r.passed_over s' (All-IsFree-Calm calm r.passed_over v.passed) free;
      apart =
          subst (λ xs. Nodup (ids rest ++ xs))
            (sym (
              map-append (λ t. t.id) r.passed_over (s' ∷ [])
              ∙ ap (λ x. ids r.passed_over ++ x ∷ []) same_id))
            (Nodup-snoc s.id (ids rest) (ids r.passed_over) v.apart);
    }

module _ (w : World) (cx : Context) (counts : Dict ℕ) (s : Stage) (rest : List Stage) (r r' : Round)
    (v : RoundInv cx.registry (s ∷ rest) r) where
  -- The allocation chosen for a stage is granted.
  granted-RoundInv :
      (a : Allocation)
      → next (assignments (beside cx counts r) s.needs) ≡ ok (some a)
      → grant w cx.registry s a r ≡ ok r'
      → RoundInv cx.registry rest r'
  unfolding grant
  granted-RoundInv a chosen e =
      let sc = beside cx counts r in
      let (_, placed, fit) =
        next-Yields (IsAdmissible sc) (assignments sc s.needs) a
          (assignments-IsAdmissible sc s.needs) chosen in
      let (leaves, _, e') = >>=-eq-ok (traverse (with_leaf cx.registry) (keys a)) _ e in
      subst (RoundInv cx.registry rest) (ok-injective e') (
        enact-RoundInv w cx.registry s a _ _ rest r v
          (compatible-append cx.registry a (allocations r.active) r.protection fit) placed)

  kept-RoundInv :
      (k : Stage × List Allocation × Ledger)
      → keep_waiting w cx counts s r.active r.protection r.ledger ≡ ok k
      → RoundInv cx.registry rest
          (record r { passed_over = r.passed_over ++ k.0 ∷ []; protection = k.1; ledger = k.2 })
  kept-RoundInv k e =
      let (found, reason, blocking, same) =
        keep_waiting-put_back w cx counts s r.active r.protection r.ledger k e in
      subst
        (λ (p : Stage × Ledger).
          RoundInv cx.registry rest
            (record r { passed_over = r.passed_over ++ p.0 ∷ []; protection = k.1; ledger = p.1 }))
        (sym same) (waiting-RoundInv w cx.registry s rest r found reason blocking k.1 v)

  -- Either way the round keeps the invariant.
  tried-RoundInv :
      (chosen : Option Allocation)
      → next (assignments (beside cx counts r) s.needs) ≡ ok chosen
      → tried w cx counts s r chosen ≡ ok r'
      → RoundInv cx.registry rest r'
  unfolding tried
  tried-RoundInv (some a) found e = granted-RoundInv a found e
  tried-RoundInv none found e =
      let (k, kept, e') =
        >>=-eq-ok (keep_waiting w cx counts s r.active r.protection r.ledger) _ e in
      subst (RoundInv cx.registry rest) (ok-injective e') (kept-RoundInv k kept)

try_stage-RoundInv :
    (w : World) (cx : Context) (s : Stage) (rest : List Stage) (r r' : Round)
    → RoundInv cx.registry (s ∷ rest) r
    → try_stage w cx s rest r ≡ ok r'
    → RoundInv cx.registry rest r'
unfolding try_stage
try_stage-RoundInv w cx s rest r r' v e =
    let (counts, _, e1) =
      >>=-eq-ok (count_stages cx.registry (cx.idle ++ r.passed_over ++ rest) []) _ e in
    let (chosen, found, e2) = >>=-eq-ok (next (assignments (beside cx counts r) s.needs)) _ e1 in
    tried-RoundInv w cx counts s rest r r' v chosen found e2

-- The loop grants only what is safe beside all that is held.
pub try_all-RoundInv :
    (w : World) (cx : Context) (rest : List Stage) (r r' : Round)
    → RoundInv cx.registry rest r
    → try_all w cx rest r ≡ ok r'
    → RoundInv cx.registry [] r'
unfolding try_all
try_all-RoundInv w cx [] r r' v e = subst (RoundInv cx.registry []) (ok-injective e) v
try_all-RoundInv w cx (s ∷ rest) r r' v e =
    let (next_round, first, e') = >>=-eq-ok (try_stage w cx s rest r) _ e in
    try_all-RoundInv w cx rest next_round r' (try_stage-RoundInv w cx s rest r next_round v first)
      e'
