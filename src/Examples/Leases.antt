-- ===== src/Examples/Leases.antt =====
-- The stopping of a worker on a Linux host where it ends behind SIGTERM, and the look at its group.
use orchestrator_engine.Prelude.{
  ℕ, ◌≡◌, ◌≢◌, ◌↔◌, refl, true, false, none, some, List, [], ◌∷◌, ltb, if◌then◌else◌, All, arith,
}
use orchestrator_engine.Json
use orchestrator_engine.Json.{Json, Fields, ℤ}
use orchestrator_engine.Resources.Registry
use orchestrator_engine.Lease.Identity
use orchestrator_engine.Lease.Stat
use orchestrator_engine.Lease.Stat.{Stat, linux_proc_stat, stat_fields}
use orchestrator_engine.Lease.Stat.RoundTrip.{IsField, stat_line, linux_proc_stat-stat_line}
use orchestrator_engine.Lease.Process
use orchestrator_engine.Lease.Process.{Platform, Liveness, Read, Host, no_probe}
use orchestrator_engine.Lease.Process.Same.{SameBoot, identity_matches_iff}
use orchestrator_engine.Lease.Records
use orchestrator_engine.Lease.Records.{
  load_lease, acquire_lease, release_lease, record_worker_identity, held_lease,
}
use orchestrator_engine.Lease.Records.Lived.{Step, Lived, Lived-load_lease}
use orchestrator_engine.Result.{ok}
use orchestrator_engine.Lease.Stop
use orchestrator_engine.Lease.Stop.{Signal, Outcome, Sent, Scope, Report, stop_worker_tree}
use orchestrator_engine.Lease.Stop.Safety.{IsJustified, stop_worker_tree-IsJustified}
use orchestrator_engine.Lease.Stop.Ends.{stop_worker_tree-returns}
use orchestrator_engine.Lease.Stop.Truth.{Means, stop_worker_tree-Means}
use orchestrator_engine.Lease.Groups
use orchestrator_engine.Lease.Groups.{
  Task, ProcEntry, Member, linux_execution_state, snapshot, same_members,
}
use orchestrator_engine.Lease.Groups.Quiet.{IsQuietPass, linux_execution_state-gone}

program : Unit {0}
unfolding Json.get Json.get_or Json.int_eq Json.bool_int Json.size Json.eq Json.fields_in
    Registry.truthy Identity.same_source Identity.same_number Identity.same_boot
    Identity.identity_matches Stat.negated Stat.unsigned Stat.after_space Stat.after_last
    Stat.with_word Stat.cut Stat.words Stat.digits Stat.number Stat.field_as Stat.with_start
    Stat.text_fields Stat.text_stat Stat.one_letter Stat.with_fields Stat.stat_fields Stat.tail_stat
    Stat.linux_proc_stat Process.is_windows Process.is_darwin Process.is_state Process.with_boot
    Process.linux_identity Process.linux_probe Process.probe_pid Process.process_identity_probe
    Process.process_identity Process.is_zombie Process.is_token Process.expected_source
    Process.is_foreign Process.unseen Process.compared Process.judge Process.identity_state
    Stop.poll_until Stop.wait_until_gone Stop.is_matched Stop.leads Stop.scope_of Stop.deliver
    Stop.stopped Stop.after_term Stop.terminate Stop.act_on Stop.stop_worker_tree Groups.is_decimal
    Groups.decimal_from Groups.stat_of Groups.is_stopped Groups.add_member Groups.view_stat
    Groups.view_task Groups.after_view Groups.scan_tasks Groups.threads_of Groups.view_leader
    Groups.view_entry Groups.after_entry Groups.scan_entries Groups.concluded Groups.snapshot
    Groups.same_members Groups.compared_members Groups.second_pass Groups.execution_state
    Groups.linux_execution_state Records.load_lease Records.assign Records.held_lease
    Records.acquire_lease Records.renew_lease Records.assign_some Records.as_number
    Records.as_object Records.record_worker_identity Records.release_lease
program = tt

-- The worker is there at the first four steps.
abbrev host : Host
host = record {
  platform = Platform.linux;
  supported = true;
  native_probe = λ n pid. no_probe Liveness.unknown;
  stat_text = λ n pid.
      if ltb n 4
      then Read.content "7 (w) S 1 7 7 0 0 0 0 0 0 0 0 0 0 0 0 0 0 0 90 0"
      else Read.missing;
  boot_id = λ n. none;
  machine_id = Json.null;
  clock = λ n. n;
  refuses = λ n. false;
  end_job = λ n. none;
}

abbrev seven : Json
seven = Json.num (ℤ.pos 7)

abbrev identity : Json
identity = Json.obj (
    Fields.field "source" (Json.str "linux-proc-stat")
      (Fields.field "pid" seven (Fields.field "start_ticks" (Json.num (ℤ.pos 90)) Fields.end)))

abbrev report : Report
report = record {
  scope = Scope.process_group;
  escalated = false;
  exited = true;
  verified = true;
  signals = record { signal = Signal.sigterm; to_group = true; step = 2 } ∷ [];
  outcome = Outcome.stopped_on_sigterm;
}

stopped_ok : stop_worker_tree host 4 seven seven identity 3 3 1 ≡ some report
unfolding program
stopped_ok = refl

posix : Process.is_windows host.platform ≡ false
unfolding program
posix = refl

stop_worker_tree-IsJustified_example : All (IsJustified host seven identity) report.signals
stop_worker_tree-IsJustified_example =
    stop_worker_tree-IsJustified host 4 seven seven identity 3 3 1 report posix stopped_ok

stop_worker_tree-Means_example : Means host identity Outcome.stopped_on_sigterm report
stop_worker_tree-Means_example =
    stop_worker_tree-Means host 4 seven seven identity 3 3 1 report posix stopped_ok

stop_worker_tree-returns_example :
    (rep : Report) × (stop_worker_tree host 4 seven seven identity 3 3 1 ≡ some rep)
stop_worker_tree-returns_example =
    stop_worker_tree-returns host 3 seven seven identity 3 3 1 (λ n. omega arith) (omega arith)
      (omega arith) (omega arith)

-- A stat file whose name has a parenthesis and a space in it.
abbrev fields : List (List ℕ)
fields =
    (b'Z' ∷ [])
    ∷ (b'1' ∷ [])
    ∷ (b'2' ∷ [])
    ∷ (b'3' ∷ [])
    ∷ (b'4' ∷ [])
    ∷ (b'5' ∷ [])
    ∷ (b'6' ∷ [])
    ∷ (b'7' ∷ [])
    ∷ (b'8' ∷ [])
    ∷ (b'1' ∷ [])
    ∷ (b'2' ∷ [])
    ∷ (b'3' ∷ [])
    ∷ (b'4' ∷ [])
    ∷ (b'5' ∷ [])
    ∷ (b'6' ∷ [])
    ∷ (b'7' ∷ [])
    ∷ (b'8' ∷ [])
    ∷ (b'1' ∷ [])
    ∷ (b'2' ∷ [])
    ∷ (b'9' ∷ b'0' ∷ [])
    ∷ (b'4' ∷ [])
    ∷ []

fields-IsField : All IsField fields
fields-IsField = (
  ((λ e. cc), refl),
  (
    ((λ e. cc), refl),
    (
      ((λ e. cc), refl),
      (
        ((λ e. cc), refl),
        (
          ((λ e. cc), refl),
          (
            ((λ e. cc), refl),
            (
              ((λ e. cc), refl),
              (
                ((λ e. cc), refl),
                (
                  ((λ e. cc), refl),
                  (
                    ((λ e. cc), refl),
                    (
                      ((λ e. cc), refl),
                      (
                        ((λ e. cc), refl),
                        (
                          ((λ e. cc), refl),
                          (
                            ((λ e. cc), refl),
                            (
                              ((λ e. cc), refl),
                              (
                                ((λ e. cc), refl),
                                (
                                  ((λ e. cc), refl),
                                  (
                                    ((λ e. cc), refl),
                                    (
                                      ((λ e. cc), refl),
                                      (((λ e. cc), refl), (((λ e. cc), refl), tt)),
                                    ),
                                  ),
                                ),
                              ),
                            ),
                          ),
                        ),
                      ),
                    ),
                  ),
                ),
              ),
            ),
          ),
        ),
      ),
    ),
  ),
)

linux_proc_stat-stat_line_example :
    linux_proc_stat (stat_line (b'7' ∷ []) (b')' ∷ b' ' ∷ b'x' ∷ []) fields) ≡ stat_fields fields
linux_proc_stat-stat_line_example =
    linux_proc_stat-stat_line (b'7' ∷ []) (b')' ∷ b' ' ∷ b'x' ∷ []) fields fields-IsField

-- A group of one thread, a zombie.
abbrev zombie : Read (List ℕ)
zombie = Read.content (
    b'7' ∷ b' ' ∷ b'(' ∷ b'w' ∷ b')' ∷ b' ' ∷ b'Z' ∷ b' ' ∷ b'1' ∷ b' ' ∷ b'7' ∷ b' ' ∷ b'7' ∷ b' '
    ∷ b'0' ∷ b' ' ∷ b'0' ∷ b' ' ∷ b'0' ∷ b' ' ∷ b'0' ∷ b' ' ∷ b'0' ∷ b' ' ∷ b'0' ∷ b' ' ∷ b'0'
    ∷ b' ' ∷ b'0' ∷ b' ' ∷ b'0' ∷ b' ' ∷ b'0' ∷ b' ' ∷ b'0' ∷ b' ' ∷ b'0' ∷ b' ' ∷ b'0' ∷ b' '
    ∷ b'0' ∷ b' ' ∷ b'0' ∷ b' ' ∷ b'9' ∷ [])

abbrev pass : Read (List ProcEntry)
pass = Read.content (
    record {
      name = b'7' ∷ [];
      stat = zombie;
      tasks = Read.content (record { name = b'7' ∷ []; stat = zombie } ∷ []);
    }
    ∷ [])

group_gone : linux_execution_state (ℤ.pos 7) pass pass ≡ Liveness.gone
unfolding program
group_gone = refl

linux_execution_state-gone_example :
    IsQuietPass (ℤ.pos 7) pass
    × IsQuietPass (ℤ.pos 7) pass
    × ((ms : List Member) × (ns : List Member) × (snapshot (ℤ.pos 7) pass ≡ (Liveness.gone, ms))
        × (snapshot (ℤ.pos 7) pass ≡ (Liveness.gone, ns))
        × (ms ≢ [])
        × (same_members ms ns ≡ true))
linux_execution_state-gone_example = linux_execution_state-gone (ℤ.pos 7) pass pass group_gone

-- The lease of a task, taken, then given its worker, then released.
abbrev own_identity : Fields
own_identity = Process.linux_identity host 0 7 ("S", ℤ.pos 90)

abbrev taken : Fields
taken = held_lease "task" "codex" 7 own_identity 30 "t0"

taken_ok : acquire_lease host 0 7 "task" "codex" 30 "t0" ≡ ok taken
unfolding program
taken_ok = refl

abbrev closed : Fields
closed =
    release_lease "supervisor" "completed" "t2" (record_worker_identity host 1 7 none "t1" taken)

closed-Lived : Lived host taken closed
closed-Lived =
    Lived.then (Lived.then Lived.here (Step.record_worker 1 7 none "t1"))
      (Step.release "supervisor" "completed" "t2")

Lived-load_lease_example :
    (load_lease (Read.content closed) ≡ ok (some closed))
    × (Identity.at "task_id" closed ≡ Json.str "task")
    × ((own : Fields) × (Process.process_identity host 0 (Records.number_of 7) ≡ some own)
        × (Identity.at "supervisor_identity" closed ≡ Json.obj own))
Lived-load_lease_example =
    Lived-load_lease host 0 7 "task" "codex" 30 "t0" taken closed taken_ok closed-Lived

identity_matches_iff_example :
    (Identity.identity_matches
        (Json.obj own_identity)
        (Json.obj (Process.linux_identity host 9 7 ("Z", ℤ.pos 90)))
      ≡ true)
    ↔ ((◌≡◌ {A = ℕ} 7 7) × (ℤ.pos 90 ≡ ℤ.pos 90) × SameBoot (host.boot_id 0) (host.boot_id 9))
identity_matches_iff_example = identity_matches_iff host host 0 9 7 7 "S" "Z" (ℤ.pos 90) (ℤ.pos 90)
