-- ===== src/Lease/Records/Lived.antt =====
-- What stays true of a lease that its operations are applied to: it can be loaded, for the task and
-- the holder that took it.
use orchestrator_engine.Prelude.{
  List, [], ◌∷◌, contains, ℕ, String, ◌≡◌, refl, sym, ap, ◌∙◌, false, Option, none, some, ◌==◌,
  arith, eq_iff, if◌then◌else◌,
}
use orchestrator_engine.Json
use orchestrator_engine.Json.{Json, Fields, ℤ}
use orchestrator_engine.Result.{ok, no_identity, or_raise, >>=-eq-ok, eq_of_ok}
use orchestrator_engine.Lease.Identity.{at}
use orchestrator_engine.Lease.Process.{Read, Host, process_identity}
use orchestrator_engine.Lease.Records.{
  lease_kind, load_lease, assign, number_of, held_lease, acquire_lease, renew_lease, assign_some,
  record_worker_identity, release_lease,
}

-- A step of a lease that is taken already.
pub data Step (h : Host) : Fields → Fields → Type 0 where
  record_worker :
      {lease : Fields} (n pid : ℕ) (pgid : Option ℕ) (now : String)
      → Step h lease (record_worker_identity h n pid pgid now lease)
  renew : {lease : Fields} (now : String) → Step h lease (renew_lease now lease)
  release :
      {lease : Fields} (by status now : String) → Step h lease (release_lease by status now lease)

pub data Lived (h : Host) : Fields → Fields → Type 0 where
  here : {lease : Fields} → Lived h lease lease
  then : {first lease next : Fields} → Lived h first lease → Step h lease next → Lived h first next

pub at-assign :
    (k j : String) (v : Json) (fs : Fields) → at j (assign k v fs) ≡ (if k == j then v else at j fs)
unfolding assign Json.get_or
at-assign k j v Fields.end = ground arith
at-assign k j v (Fields.field i w fs) =
    ground (arith, eq_iff k j, eq_iff i k, eq_iff i j, at-assign k j v fs)

pub at-assign_other :
    (k j : String) (v : Json) (fs : Fields) → (k == j) ≡ false → at j (assign k v fs) ≡ at j fs
at-assign_other k j v fs h = at-assign k j v fs ∙ other h
  where
    other : (k == j) ≡ false → (if k == j then v else at j fs) ≡ at j fs
    other e = rw e refl

pub at-assign_some :
    (k j : String) (o : Option Json) (fs : Fields)
    → (k == j) ≡ false
    → at j (assign_some k o fs) ≡ at j fs
unfolding assign_some
at-assign_some k j none fs h = refl
at-assign_some k j (some v) fs h = at-assign_other k j v fs h

-- The keys that steps write.
abbrev pub written_keys : List String
written_keys =
    "worker_pid" ∷ "worker_pgid" ∷ "worker_identity" ∷ "renewed_at" ∷ "status" ∷ "released_by"
    ∷ "terminal_status" ∷ "released_at" ∷ []

Step-keeps :
    (h : Host) (first next : Fields) (key : String)
    → contains written_keys key ≡ false
    → Step h first next
    → at key next ≡ at key first
unfolding record_worker_identity renew_lease release_lease
Step-keeps h first next key fixed (Step.record_worker n pid pgid now) =
    at-assign_other "renewed_at" key _ _ (ground arith)
    ∙ at-assign_some "worker_identity" key _ _ (ground arith)
    ∙ at-assign_some "worker_pgid" key _ _ (ground arith)
    ∙ at-assign_other "worker_pid" key _ _ (ground arith)
Step-keeps h first next key fixed (Step.renew now) =
    at-assign_other "renewed_at" key _ _ (ground arith)
Step-keeps h first next key fixed (Step.release by status now) =
    at-assign_other "released_at" key _ _ (ground arith)
    ∙ at-assign_other "terminal_status" key _ _ (ground arith)
    ∙ at-assign_other "released_by" key _ _ (ground arith)
    ∙ at-assign_other "status" key _ _ (ground arith)

Lived-keeps :
    (h : Host) (first lease : Fields) (key : String)
    → contains written_keys key ≡ false
    → Lived h first lease
    → at key lease ≡ at key first
Lived-keeps h first lease key fixed Lived.here = refl
Lived-keeps h first lease key fixed (Lived.then {lease = before} lived step) =
    Step-keeps h before lease key fixed step ∙ Lived-keeps h first before key fixed lived

-- A lease that was acquired can be loaded after any of the later operations, and is then what was
-- written, for the same task, held by the process that took it.
pub Lived-load_lease :
    (h : Host) (n pid : ℕ) (task_id worker : String) (interval : ℕ) (now : String)
    (first lease : Fields)
    → acquire_lease h n pid task_id worker interval now ≡ ok first
    → Lived h first lease
    → (load_lease (Read.content lease) ≡ ok (some lease))
      × (at "task_id" lease ≡ Json.str task_id)
      × ((identity : Fields) × (process_identity h n (number_of pid) ≡ some identity)
          × (at "supervisor_identity" lease ≡ Json.obj identity))
unfolding acquire_lease held_lease load_lease Json.get_or
Lived-load_lease h n pid task_id worker interval now first lease e lived =
    let (identity, seen, e) =
      >>=-eq-ok (or_raise no_identity (process_identity h n (number_of pid))) _ e in
    let made = sym (eq_of_ok e) in
    let kept = Lived-keeps h first lease in
    let kind : at "kind" lease ≡ lease_kind = kept "kind" refl lived ∙ ap (at "kind") made in
    (
      rw (kind, Json.eq-str_self "WORKER_LEASE") refl,
      kept "task_id" refl lived ∙ ap (at "task_id") made,
      (
        identity,
        raised_not _ _ seen,
        kept "supervisor_identity" refl lived ∙ ap (at "supervisor_identity") made,
      ),
    )
  where
    raised_not :
        (o : Option Fields) (identity : Fields)
        → or_raise no_identity o ≡ ok identity
        → o ≡ some identity
    raised_not none identity q = cc
    raised_not (some x) identity q = cc
