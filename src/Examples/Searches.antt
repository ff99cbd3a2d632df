-- ===== src/Examples/Searches.antt =====
-- A board that is asked for, and the search for it.
use orchestrator_engine.Prelude.{ℕ, ◌≡◌, some}
use orchestrator_engine.Result.{Spares}
use orchestrator_engine.Resources.Assignments
use orchestrator_engine.Resources.Assignments.Frames
use orchestrator_engine.Resources.Assignments.Frames.Refines.{assignments_loop-assignments}
use orchestrator_engine.Resources.Assignments.Ends.{assignments-Spares}
use orchestrator_engine.Ledger.Requests
use orchestrator_engine.Examples.{boards, left_need}

assignments_loop-assignments_example :
    (fuel : ℕ) × (Frames.assignments_loop (Requests.alone_in boards) fuel left_need
      ≡ some (Assignments.assignments (Requests.alone_in boards) left_need))
assignments_loop-assignments_example =
    assignments_loop-assignments (Requests.alone_in boards) left_need

assignments-Spares_example : Spares (Assignments.assignments (Requests.alone_in boards) left_need)
assignments-Spares_example = assignments-Spares (Requests.alone_in boards) left_need
