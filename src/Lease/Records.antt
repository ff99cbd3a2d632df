-- ===== src/Lease/Records.antt =====
-- worker_lease.py: the lease of a task, as a file that the supervisor writes: load_lease,
-- acquire_lease, record_worker_identity, renew_lease, release_lease. Times are the texts of
-- core.utc_now at each step.
pub mod Lived
use orchestrator_engine.Prelude.{
  ℕ, zero, suc, ◌*◌, String, Bool, true, false, not, Option, none, some, ◌==◌, if◌then◌else◌,
}
use orchestrator_engine.Json
use orchestrator_engine.Json.{Json, Fields, ℤ}
use orchestrator_engine.Result.{
  Result, ok, err, ◌>>=◌, or_raise, unreadable_lease, unexpected_kind, no_identity,
}
use orchestrator_engine.Lease.Identity.{at}
use orchestrator_engine.Lease.Process.{Read, Host, process_identity}

abbrev pub lease_kind : Json
lease_kind = Json.str "WORKER_LEASE"

-- What the file holds: an object, something that cannot be read as one, or nothing.
abbrev pub LeaseFile : Type 0
LeaseFile = Read Fields

unfoldable pub load_lease : LeaseFile → Result (Option Fields)
load_lease Read.missing = ok none
load_lease Read.failed = err unreadable_lease
load_lease (Read.content lease) =
    if Json.eq (at "kind" lease) lease_kind then ok (some lease) else err unexpected_kind

-- lease[key] = value
unfoldable pub assign : String → Json → Fields → Fields
assign k v Fields.end = Fields.field k v Fields.end
assign k v (Fields.field j w fs) =
    let rest = assign k v fs in if j == k then Fields.field k v fs else Fields.field j w rest

abbrev pub number_of : ℕ → Json
number_of n = Json.num (ℤ.pos n)

abbrev pub expiry_factor : ℕ
expiry_factor = 3

unfoldable pub held_lease :
    (task_id worker : String)
    → (pid : ℕ) → (identity : Fields) → (interval : ℕ) → (now : String) → Fields
held_lease task_id worker pid identity interval now = Fields.field "schema_version" (number_of 1) (
    Fields.field "kind" lease_kind (
      Fields.field "task_id" (Json.str task_id) (
        Fields.field "worker" (Json.str worker) (
          Fields.field "status" (Json.str "held") (
            Fields.field "holder" (Json.str "supervisor") (
              Fields.field "supervisor_pid" (number_of pid) (
                Fields.field "supervisor_identity" (Json.obj identity) (
                  Fields.field "lease_interval_seconds" (number_of interval) (
                    Fields.field "lease_expiry_seconds" (number_of (interval * expiry_factor)) (
                      Fields.field "acquired_at" (Json.str now)
                        (Fields.field "renewed_at" (Json.str now) Fields.end)))))))))))

-- The lease that is written, which is also the one returned.
unfoldable pub acquire_lease :
    Host
    → (step pid : ℕ) → (task_id worker : String) → (interval : ℕ) → (now : String) → Result Fields
acquire_lease h n pid task_id worker interval now = do
  identity ← or_raise no_identity (process_identity h n (number_of pid))
  ok (held_lease task_id worker pid identity interval now)

unfoldable pub renew_lease : (now : String) → Fields → Fields
renew_lease now lease = assign "renewed_at" (Json.str now) lease

unfoldable pub assign_some : String → Option Json → Fields → Fields
assign_some k none lease = lease
assign_some k (some v) lease = assign k v lease

unfoldable pub as_number : Option ℕ → Option Json
as_number none = none
as_number (some n) = some (number_of n)

unfoldable pub as_object : Option Fields → Option Json
as_object none = none
as_object (some fs) = some (Json.obj fs)

unfoldable pub record_worker_identity :
    Host → (step worker_pid : ℕ) → (worker_pgid : Option ℕ) → (now : String) → Fields → Fields
record_worker_identity h n worker_pid worker_pgid now lease = renew_lease now (
    assign_some "worker_identity" (as_object (process_identity h n (number_of worker_pid))) (
      assign_some "worker_pgid" (as_number worker_pgid)
        (assign "worker_pid" (number_of worker_pid) lease)))

unfoldable pub release_lease : (released_by terminal_status now : String) → Fields → Fields
release_lease released_by terminal_status now lease = assign "released_at" (Json.str now) (
    assign "terminal_status" (Json.str terminal_status)
      (assign "released_by" (Json.str released_by) (assign "status" (Json.str "released") lease)))
