-- ===== src/Lease/Groups/Quiet.antt =====
-- What was seen of a process group that still has members and whose execution state is gone.
use orchestrator_engine.Prelude.{
  ℕ, ◌≡◌, refl, ◌≢◌, inl, inr, ◌⊎◌, Bool, true, false, Option, none, some, List, [], ◌∷◌, arith,
  All, Bool-cases,
}
use orchestrator_engine.Json.{ℤ, int_eq}
use orchestrator_engine.Lease.Process.{Liveness, Read}
use orchestrator_engine.Lease.Stat.{Stat}
use orchestrator_engine.Lease.Groups.{
  Task, ProcEntry, is_decimal, decimal, stat_of, is_stopped, Member, add_member, View, view_stat,
  view_task, Found, after_view, scan_tasks, EntryView, threads_of, view_leader, view_entry,
  after_entry, scan_entries, concluded, snapshot, same_members, compared_members, second_pass,
  execution_state, linux_execution_state,
}

-- A thread of the group that was read and executes nothing.
abbrev pub IsQuietTask : ℤ → Task → Type 0
IsQuietTask pgid t =
    (s : Stat) × (stat_of t.stat ≡ some s)
    × (int_eq s.group pgid ≡ true)
    × (is_stopped s.state ≡ true)

-- An entry that is no process, or a process of another group, or one whose threads are all quiet.
abbrev pub IsQuietEntry : ℤ → ProcEntry → Type 0
IsQuietEntry pgid e =
    (is_decimal e.name ≡ false)
    ⊎ ((s : Stat) × (stat_of e.stat ≡ some s)
        × ((int_eq s.group pgid ≡ false)
            ⊎ ((ts : List Task) × (e.tasks ≡ Read.content ts) × All (IsQuietTask pgid) ts)))

view_stat-stopped :
    (pgid : ℤ) (pid tid : ℕ) (o : Option Stat) (x : Member)
    → view_stat pgid pid tid o ≡ View.stopped x
    → (s : Stat) × (o ≡ some s) × (int_eq s.group pgid ≡ true) × (is_stopped s.state ≡ true)
unfolding view_stat
view_stat-stopped pgid pid tid none x e = cc
view_stat-stopped pgid pid tid (some s) x e = (s, refl, ground arith, ground arith)

view_task-stopped :
    (pgid : ℤ) (pid : ℕ) (t : Task) (x : Member)
    → view_task pgid pid t ≡ View.stopped x
    → IsQuietTask pgid t
unfolding view_task
view_task-stopped pgid pid t x e = elim (Bool-cases (is_decimal t.name)) [
  | inl named ↦ view_stat-stopped pgid pid (decimal t.name) (stat_of t.stat) x (rw named at e)
  | inr unnamed ↦ absurd (doubt (rw unnamed at e))
]
  where
    doubt : View.doubtful ≡ View.stopped x → ⊥
    doubt q = cc

-- A pass that ends without a doubt had none at any thread.
abbrev IsCertain : Found → Type 0
IsCertain f = (ms : List Member) × (f ≡ Found.scanned ms false)

-- What a rest of a pass shows where it ends without a doubt.
abbrev Shows : (List Member → Bool → Found) → Type 0 → Type 0
Shows rest P = (ms : List Member) (u : Bool) → IsCertain (rest ms u) → (u ≡ false) × P

after_view-Shows :
    (v : View) (rest : List Member → Bool → Found) (P : Type 0)
    → Shows rest P
    → Shows (after_view v rest) (((x : Member) × (v ≡ View.stopped x)) × P)
unfolding after_view
after_view-Shows View.doubtful rest P k ms u c = absurd (true-false (k ms true c).0)
  where
    true-false : true ≡ false → ⊥
    true-false q = cc
after_view-Shows (View.runs x) rest P k ms u (ms', e) = cc
after_view-Shows (View.stopped x) rest P k ms u c =
    let (certain, p) = k (add_member x ms) u c in (certain, ((x, refl), p))

scan_tasks-Shows :
    (pgid : ℤ) (pid : ℕ) (ts : List Task) (rest : List Member → Bool → Found) (P : Type 0)
    → Shows rest P
    → Shows (scan_tasks pgid pid ts rest) (All (IsQuietTask pgid) ts × P)
unfolding scan_tasks
scan_tasks-Shows pgid pid [] rest P k ms u c = let (certain, p) = k ms u c in (certain, (tt, p))
scan_tasks-Shows pgid pid (t ∷ ts) rest P k ms u c =
    let (certain, ((x, quiet), (more, p))) =
      after_view-Shows (view_task pgid pid t) (scan_tasks pgid pid ts rest) _
        (scan_tasks-Shows pgid pid ts rest P k) ms u c in
    (certain, ((view_task-stopped pgid pid t x quiet, more), p))

-- What the view of an entry says of it.
abbrev Says : ℤ → ProcEntry → EntryView → Type 0
Says pgid e EntryView.skipped = IsQuietEntry pgid e
Says pgid e EntryView.unclear = Unit
Says pgid e (EntryView.threads ts) = All (IsQuietTask pgid) ts → IsQuietEntry pgid e

threads_of-Says :
    (pgid : ℤ) (e : ProcEntry) (s : Stat) (r : Read (List Task))
    → stat_of e.stat ≡ some s
    → e.tasks ≡ r
    → Says pgid e (threads_of r)
unfolding threads_of
threads_of-Says pgid e s Read.missing at_stat at_tasks = tt
threads_of-Says pgid e s Read.failed at_stat at_tasks = tt
threads_of-Says pgid e s (Read.content []) at_stat at_tasks = tt
threads_of-Says pgid e s (Read.content (t ∷ ts)) at_stat at_tasks =
    λ quiet. inr (s, at_stat, inr (t ∷ ts, at_tasks, quiet))

view_leader-Says :
    (pgid : ℤ) (e : ProcEntry) (o : Option Stat)
    → stat_of e.stat ≡ o
    → Says pgid e (view_leader pgid e.tasks o)
unfolding view_leader
view_leader-Says pgid e none at_stat = tt
view_leader-Says pgid e (some s) at_stat = elim (Bool-cases (int_eq s.group pgid)) [
  | inl own ↦ rw own (threads_of-Says pgid e s e.tasks at_stat refl)
  | inr other ↦ rw other (inr (s, at_stat, inl other))
]

view_entry-Says : (pgid : ℤ) (e : ProcEntry) → Says pgid e (view_entry pgid e)
unfolding view_entry
view_entry-Says pgid e = elim (Bool-cases (is_decimal e.name)) [
  | inl named ↦ rw named (view_leader-Says pgid e (stat_of e.stat) refl)
  | inr unnamed ↦ rw unnamed (inl unnamed)
]

after_entry-Shows :
    (pgid : ℤ) (pid : ℕ) (e : ProcEntry) (v : EntryView) (rest : List Member → Bool → Found)
    (P : Type 0)
    → Says pgid e v
    → Shows rest P
    → Shows (after_entry pgid pid v rest) (IsQuietEntry pgid e × P)
unfolding after_entry
after_entry-Shows pgid pid e EntryView.skipped rest P says k ms u c =
    let (certain, p) = k ms u c in (certain, (says, p))
after_entry-Shows pgid pid e EntryView.unclear rest P says k ms u c =
    absurd (true-false (k ms true c).0)
  where
    true-false : true ≡ false → ⊥
    true-false q = cc
after_entry-Shows pgid pid e (EntryView.threads ts) rest P says k ms u c =
    let (certain, (quiet, p)) = scan_tasks-Shows pgid pid ts rest P k ms u c in
    (certain, (says quiet, p))

scan_entries-Shows :
    (pgid : ℤ) (es : List ProcEntry) → Shows (scan_entries pgid es) (All (IsQuietEntry pgid) es)
unfolding scan_entries
scan_entries-Shows pgid [] ms u (ms', e) = (ground arith, tt)
scan_entries-Shows pgid (e ∷ es) ms u c =
    after_entry-Shows pgid (decimal e.name) e (view_entry pgid e) (scan_entries pgid es) _
      (view_entry-Says pgid e) (scan_entries-Shows pgid es) ms u c

-- A pass over /proc that was read, in which every entry is quiet.
abbrev pub IsQuietPass : ℤ → Read (List ProcEntry) → Type 0
IsQuietPass pgid r = (es : List ProcEntry) × (r ≡ Read.content es) × All (IsQuietEntry pgid) es

concluded-gone :
    (f : Found) (ms : List Member) → concluded f ≡ (Liveness.gone, ms) → f ≡ Found.scanned ms false
unfolding concluded
concluded-gone (Found.executing xs) ms e = cc
concluded-gone (Found.scanned xs true) ms e = cc
concluded-gone (Found.scanned xs false) ms e = cc

snapshot-gone :
    (pgid : ℤ) (r : Read (List ProcEntry)) (ms : List Member)
    → snapshot pgid r ≡ (Liveness.gone, ms)
    → IsQuietPass pgid r
unfolding snapshot
snapshot-gone pgid Read.missing ms e = cc
snapshot-gone pgid Read.failed ms e = cc
snapshot-gone pgid (Read.content es) ms e =
    (es, refl, (scan_entries-Shows pgid es [] false (ms, concluded-gone _ ms e)).1)

-- Both passes found quiet members alone, some, and the same ones.
abbrev Agrees : Liveness × List Member → Liveness × List Member → Type 0
Agrees p q =
    (ms : List Member) × (ns : List Member) × (p ≡ (Liveness.gone, ms))
    × (q ≡ (Liveness.gone, ns))
    × (ms ≢ [])
    × (same_members ms ns ≡ true)

compared_members-gone :
    (ms ns : List Member)
    → compared_members ms ns ≡ Liveness.gone
    → (ms ≢ []) × (same_members ms ns ≡ true)
unfolding compared_members
compared_members-gone [] ns e = cc
compared_members-gone (x ∷ ms) ns e = ((λ q. cc), ground arith)

second_pass-gone :
    (ms : List Member) (q : Liveness × List Member)
    → second_pass ms q ≡ Liveness.gone
    → (ns : List Member) × (q ≡ (Liveness.gone, ns)) × (ms ≢ []) × (same_members ms ns ≡ true)
unfolding second_pass
second_pass-gone ms (Liveness.alive, ns) e = cc
second_pass-gone ms (Liveness.unknown, ns) e = cc
second_pass-gone ms (Liveness.gone, ns) e =
    let (some_there, same) = compared_members-gone ms ns e in (ns, refl, some_there, same)

execution_state-gone :
    (pgid : ℤ) (p q : Liveness × List Member)
    → execution_state pgid p q ≡ Liveness.gone
    → Agrees p q
unfolding execution_state
execution_state-gone pgid (Liveness.alive, ms) q e = cc
execution_state-gone pgid (Liveness.unknown, ms) q e = cc
execution_state-gone pgid (Liveness.gone, ms) q e =
    let (ns, found, some_there, same) = second_pass-gone ms q e in
    (ms, ns, refl, found, some_there, same)

-- The execution state of a process group, as it is read from /proc where the group still has
-- members, is gone only where two passes were read whole, each found no thread of the group that
-- could execute and none that could not be judged, and they found the same members, at least one.
pub linux_execution_state-gone :
    (pgid : ℤ) (first second : Read (List ProcEntry))
    → linux_execution_state pgid first second ≡ Liveness.gone
    → IsQuietPass pgid first
      × IsQuietPass pgid second
      × ((ms : List Member) × (ns : List Member) × (snapshot pgid first ≡ (Liveness.gone, ms))
          × (snapshot pgid second ≡ (Liveness.gone, ns))
          × (ms ≢ [])
          × (same_members ms ns ≡ true))
unfolding linux_execution_state
linux_execution_state-gone pgid first second e =
    let (ms, ns, p, q, some_there, same) =
      execution_state-gone pgid (snapshot pgid first) (snapshot pgid second) e in
    (
      snapshot-gone pgid first ms p,
      snapshot-gone pgid second ns q,
      (ms, ns, p, q, some_there, same),
    )
