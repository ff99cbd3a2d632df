-- ===== src/Lib.antt =====
-- OrchestratorEngine lets many projects run workers on one machine: a resource queue shares physical
-- resources (boards, devices, slots) between them, leases record which process a worker is, so that
-- a stranger is never stopped in its place, and waits watch workers, checks and monitors until they
-- end.
--
-- What is modelled is src/orchestrator_engine/resource_queue.py, worker_lease.py beside it,
-- operation_wait.py, resource_metrics.py, the acceptance of work items of metrics/progress.py,
-- the event log of core.py, and binding.py. In the queue a registry names leaves, each with a capacity,
-- and selectors over them (aliases, pools, bundles). A request brings a plan of stages with dependencies
-- and needs. The ledger, a SQLite file, grants allocations to stages and takes them back; every public
-- method of the class `Ledger` is one exclusive transaction. A worker that ends leaves an event with
-- the digests of its result and evidence, and a signal that may carry the wake target captured from
-- the binding of a host; a subscriber of a request carries such a target too.
--
-- - Resources: the functions over a registry, each under its own name. Registry and Normalize have
--   `normalize_registry`, Claims has `compatible`, Selectors `selector_leaves`,
--   `selector_available` and `selector_claim_available`, Alternatives `alternatives`, Demands
--   `demands`, Assignments `assignments`. Generators are lists that may end in an exception, so a
--   consumer that stops early meets only what it has asked for. `assignments` is a
--   recursion in Assignments, and in Assignments.Frames the loop over explicit frames of the program.
-- - Ledger: State has the tables as a record and the dict of a stage as a record, Save the clock,
--   the sequence, `event` and `save`, Outcomes `_outcomes` with its outbox and history, Schedule
--   with its children `schedule`, Operations `attach`, `annotate`, `admit`, `cancel`,
--   `abort_unadmitted`, `finish`, `_finish` and `recover`, Plans the reading of a plan, Requests
--   `configure` and `submit`, and Subscriptions `subscribe`. Steps makes them a step relation.
--   Intake has what `submit` and `subscribe` check of a subscriber first, and Snapshot `snapshot`.
--   Forward follows one stage through any later transactions.
-- - Lease: Identity has `identity_matches`, Stat the reading of /proc/<pid>/stat, Process
--   `process_identity_probe`, `identity_state` and `pid_state`, Stop `stop_worker_tree` with
--   `wait_until_gone`, Groups `process_group_state` and what it calls, Records
--   `load_lease`, `acquire_lease`, `record_worker_identity`, `renew_lease` and `release_lease`.
-- - Events: Ids has `validate_event_id`, Log `write_terminal_event`, `write_followup_event` and
--   `_retain_event_and_signal`, Verify `verify_terminal_event` and `subject_fields`. The files are
--   an entry for each identifier, and a publication, which holds a lock, is one step.
-- - Binding: `write_binding`, `load_binding`, `require_binding`, `validate_binding`,
--   `wake_target_from_binding`, `validate_wake_target` and `clear_binding`, over what the file
--   binding.json holds, and `validate_subscriber` of resource_queue.py.
-- - Wait: Targets has `parse_target` and `validate_targets`, Snapshot `operation_snapshot`, Summary
--   `operation_wait_snapshot`, Loop `wait_for_operations`.
-- - Metrics: Union has `intervals_union`, Ownership the loop of `report` over the events, Report the
--   rest of `report`, over the tables of the ledger, Acceptance `_acceptance_states` and
--   `_acceptance_for_item`.
-- - Json, Result and Prelude have values, exceptions, generators and the shared helpers.
-- - Held, Invariant, Safety, Once and the other children are proofs; Examples runs a small
--   installation, the stop of a worker, a wait, a publication and a binding.
--
-- An exception is a value and rolls its transaction back, so that no state is left of it. The
-- clock, random identifiers, tokens and digests are functions of a `World`. Times are whole units.
-- The operating system and the reports of other modules are functions of a step, which counts the
-- looks at them; the listener of a wait and its sleep may raise. A loop that sleeps is on fuel: each round sleeps for at least a unit, so as many
-- rounds as the timeout has units, and one more, are enough. A stat text is the
-- decoded one: `process_identity_probe` catches no UnicodeDecodeError, and what a program whose name is
-- not UTF-8 makes it raise is not modelled. What the kernel writes behind the name is ASCII, and is
-- split and read as such.
-- Recursion over selectors is on fuel, one more than the names of the registry: the trail of a call
-- has no name twice and only registered ones. The loop over frames is on fuel too. A `Site` answers
-- for the paths, the digests of files, the clock and the parsing of times, at one publication. A
-- stage's definition names none of the fields that
-- only the ledger writes, and a dependency that is no text, which the program refuses a little
-- later, is refused where it is read.
--
-- Not modelled: the delivery of the outbox, whose columns `snapshot` takes as a function; the rest of
-- core.py, which reads and writes files, and the paths of binding.py; the SQLite file, its creation and its locking; how a lease is written
-- as JSON, and its age; the rest of metrics/progress.py; the backends of macOS and Windows, which are
-- parameters; and the other modules of the package, which start processes, talk to services, or keep
-- files.
pub mod Prelude
pub mod Json
pub mod Result
pub mod Resources
pub mod Lease
pub mod Ledger
pub mod Events
pub mod Binding
pub mod Wait
pub mod Metrics
pub mod Examples
