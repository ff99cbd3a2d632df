-- ===== src/Lease/Groups.antt =====
-- worker_lease.py: raw_process_group_state, process_group_state,
-- linux_process_group_execution_state, _linux_process_group_snapshot.
pub mod Quiet
use orchestrator_engine.Prelude.{
  ℕ, zero, suc, ◌+◌, ◌-◌, ◌*◌, Bool, true, false, not, ◌&&◌, ◌||◌, Option, none, some, List, [],
  ◌∷◌, eqb, if◌then◌else◌, any, all,
}
use orchestrator_engine.Json
use orchestrator_engine.Json.{Json, Fields, ℤ, int_eq}
use orchestrator_engine.Lease.Identity.{at}
use orchestrator_engine.Lease.Process.{Platform, Liveness, Read}
use orchestrator_engine.Lease.Stat.{is_digit, Stat, linux_proc_stat}
use orchestrator_engine.Lease.Stop.{has_pid}

-- What one pass reads: the directories of /proc by name, the stat file of each, its threads and
-- their stat files. Names and contents are bytes.
pub record Task : Type 0 where
  pub name : List ℕ
  pub stat : Read (List ℕ)

pub record ProcEntry : Type 0 where
  pub name : List ℕ
  pub stat : Read (List ℕ)
  pub tasks : Read (List Task)

-- The operating system at each step: os.killpg(pgid, 0), a pass over /proc, and job_state of
-- runtime_windows.py.
pub record GroupHost : Type 0 where
  pub platform : Platform
  pub killpg : ℕ → ℕ → Liveness
  pub pass : ℕ → Read (List ProcEntry)
  pub job_state : ℕ → Fields → Liveness

-- isascii() and isdecimal()
unfoldable pub is_decimal : List ℕ → Bool
is_decimal [] = false
is_decimal (c ∷ cs) = all is_digit (c ∷ cs)

unfoldable pub decimal_from : ℕ → List ℕ → ℕ
decimal_from acc [] = acc
decimal_from acc (c ∷ cs) = decimal_from (10 * acc + (c - b'0')) cs

abbrev pub decimal : List ℕ → ℕ
decimal = decimal_from 0

-- _linux_proc_stat of what was read; none where either raises.
unfoldable pub stat_of : Read (List ℕ) → Option Stat
stat_of (Read.content raw) = linux_proc_stat raw
stat_of _ = none

-- NON_EXECUTING_PROCESS_STATES
unfoldable pub is_stopped : ℕ → Bool
is_stopped st = eqb st b'X' || eqb st b'Z'

-- A member (pid, tid, start_ticks) of the set.
pub record Member : Type 0 where
  pub pid : ℕ
  pub tid : ℕ
  pub start : ℤ

abbrev pub same_member : Member → Member → Bool
same_member a b = eqb a.pid b.pid && eqb a.tid b.tid && int_eq a.start b.start

unfoldable pub add_member : Member → List Member → List Member
add_member x ms = if any (same_member x) ms then ms else x ∷ ms

-- What one thread says: nothing certain, or a member that executes or does not.
pub data View : Type 0 where
  doubtful : View
  runs stopped : Member → View

unfoldable pub view_stat : ℤ → ℕ → ℕ → Option Stat → View
view_stat pgid pid tid none = View.doubtful
view_stat pgid pid tid (some s) =
    if not (int_eq s.group pgid)
    then View.doubtful
    else if is_stopped s.state
    then View.stopped (record { pid = pid; tid = tid; start = s.start })
    else View.runs (record { pid = pid; tid = tid; start = s.start })

unfoldable pub view_task : ℤ → ℕ → Task → View
view_task pgid pid t =
    if not (is_decimal t.name)
    then View.doubtful
    else view_stat pgid pid (decimal t.name) (stat_of t.stat)

-- How a pass ends: at a member that executes, or behind all of them, with the doubt so far.
pub data Found : Type 0 where
  executing : List Member → Found
  scanned : List Member → (uncertain : Bool) → Found

unfoldable pub after_view : View → (List Member → Bool → Found) → List Member → Bool → Found
after_view View.doubtful rest ms uncertain = rest ms true
after_view (View.runs x) rest ms uncertain = Found.executing (add_member x ms)
after_view (View.stopped x) rest ms uncertain = rest (add_member x ms) uncertain

-- The loop over the threads of an entry, with the rest of the pass behind it.
unfoldable pub scan_tasks :
    ℤ → ℕ → List Task → (List Member → Bool → Found) → List Member → Bool → Found
scan_tasks pgid pid [] rest = rest
scan_tasks pgid pid (t ∷ ts) rest = after_view (view_task pgid pid t) (scan_tasks pgid pid ts rest)

-- What one entry says: it is none of the group, nothing certain, or its threads count.
pub data EntryView : Type 0 where
  skipped unclear : EntryView
  threads : List Task → EntryView

unfoldable pub threads_of : Read (List Task) → EntryView
threads_of (Read.content (t ∷ ts)) = EntryView.threads (t ∷ ts)
threads_of _ = EntryView.unclear

unfoldable pub view_leader : ℤ → Read (List Task) → Option Stat → EntryView
view_leader pgid tasks none = EntryView.unclear
view_leader pgid tasks (some leader) =
    if not (int_eq leader.group pgid) then EntryView.skipped else threads_of tasks

unfoldable pub view_entry : ℤ → ProcEntry → EntryView
view_entry pgid e =
    if not (is_decimal e.name) then EntryView.skipped else view_leader pgid e.tasks (stat_of e.stat)

unfoldable pub after_entry :
    ℤ → ℕ → EntryView → (List Member → Bool → Found) → List Member → Bool → Found
after_entry pgid pid EntryView.skipped rest ms uncertain = rest ms uncertain
after_entry pgid pid EntryView.unclear rest ms uncertain = rest ms true
after_entry pgid pid (EntryView.threads ts) rest ms uncertain =
    scan_tasks pgid pid ts rest ms uncertain

unfoldable pub scan_entries : ℤ → List ProcEntry → List Member → Bool → Found
scan_entries pgid [] ms uncertain = Found.scanned ms uncertain
scan_entries pgid (e ∷ es) ms uncertain =
    after_entry pgid (decimal e.name) (view_entry pgid e) (scan_entries pgid es) ms uncertain

unfoldable pub concluded : Found → Liveness × List Member
concluded (Found.executing ms) = (Liveness.alive, ms)
concluded (Found.scanned ms true) = (Liveness.unknown, ms)
concluded (Found.scanned ms false) = (Liveness.gone, ms)

-- _linux_process_group_snapshot
unfoldable pub snapshot : ℤ → Read (List ProcEntry) → Liveness × List Member
snapshot pgid (Read.content entries) = concluded (scan_entries pgid entries [] false)
snapshot pgid _ = (Liveness.unknown, [])

-- first_members != second_members, as sets
unfoldable pub same_members : List Member → List Member → Bool
same_members xs ys = all (λ x. any (same_member x) ys) xs && all (λ y. any (same_member y) xs) ys

unfoldable pub compared_members : List Member → List Member → Liveness
compared_members [] ys = Liveness.unknown
compared_members (x ∷ xs) ys = if same_members (x ∷ xs) ys then Liveness.gone else Liveness.unknown

unfoldable pub second_pass : List Member → Liveness × List Member → Liveness
second_pass first (Liveness.gone, second) = compared_members first second
second_pass first (st, second) = st

-- linux_process_group_execution_state; the second pass is not read where the first decides.
unfoldable pub execution_state : ℤ → Liveness × List Member → Liveness × List Member → Liveness
execution_state pgid (Liveness.gone, first) second = second_pass first second
execution_state pgid (st, first) second = st

unfoldable pub linux_execution_state : ℤ → (first second : Read (List ProcEntry)) → Liveness
linux_execution_state pgid first second =
    execution_state pgid (snapshot pgid first) (snapshot pgid second)

unfoldable pub positive_pid : Json → Option ℕ
positive_pid (Json.num (ℤ.pos (suc n))) = some (suc n)
positive_pid _ = none

-- raw_process_group_state, on a POSIX host
unfoldable pub raw_group_state : GroupHost → ℕ → Option ℕ → Liveness
raw_group_state h n none = Liveness.unknown
raw_group_state h n (some pgid) = h.killpg n pgid

-- The second look at the group, behind a pass that found it without executing members.
unfoldable pub fenced : Liveness → Liveness
fenced Liveness.unknown = Liveness.unknown
fenced _ = Liveness.gone

unfoldable pub if_executing : Liveness → Liveness → Liveness
if_executing Liveness.gone again = fenced again
if_executing st again = st

unfoldable pub posix_group_state : GroupHost → ℕ → Platform → Option ℕ → Liveness → Liveness
posix_group_state h n Platform.linux (some pgid) Liveness.alive =
    if_executing (linux_execution_state (ℤ.pos pgid) (h.pass (suc n)) (h.pass (suc (suc n))))
      (h.killpg (suc (suc (suc n))) pgid)
posix_group_state h n platform pgid raw = raw

unfoldable pub windows_group_state : GroupHost → ℕ → Option ℕ → (pgid identity : Json) → Liveness
windows_group_state h n (some p) pgid (Json.obj identity) =
    if has_pid pgid (Json.obj identity) then h.job_state n identity else Liveness.unknown
windows_group_state h n _ pgid _ = Liveness.unknown

-- process_group_state
unfoldable pub process_group_state : GroupHost → ℕ → (pgid identity : Json) → Liveness
process_group_state h n pgid identity = elim h.platform [
  | Platform.windows ↦ windows_group_state h n (positive_pid pgid) pgid identity
  | other ↦
      posix_group_state h n other (positive_pid pgid) (raw_group_state h n (positive_pid pgid))
]
