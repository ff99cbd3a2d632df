-- ===== src/Ledger/Safety/Reach.antt =====
-- What holds of a ledger after any sequence of transactions.
use orchestrator_engine.Prelude.{refl, sym, subst, lookup}
use orchestrator_engine.Resources.Claims.{occupied}
use orchestrator_engine.Resources.Claims.Safety.{IsSafe}
use orchestrator_engine.Resources.Normalize.Normal.{IsNormal}
use orchestrator_engine.Ledger.State.{World, Ledger, held, owned, values}
use orchestrator_engine.Ledger.Steps.{created, Step, Reached}
use orchestrator_engine.Ledger.Invariant.{IsSound, Keeps}
use orchestrator_engine.Ledger.Safety.Schedule.{schedule-IsSound}
use orchestrator_engine.Ledger.Safety.Operations.{
  attach-IsSound, annotate-IsSound, admit-IsSound, cancel-IsSound,
}
use orchestrator_engine.Ledger.Safety.Releases.{
  finish-IsSound, recover-IsSound, abort_unadmitted-IsSound,
}
use orchestrator_engine.Ledger.Safety.Submissions.{submit-IsSound, subscribe-IsSound}
use orchestrator_engine.Ledger.Safety.Configuration.{configure-IsSound}

-- A transaction keeps a sound ledger sound, and its registry a normal one.
abbrev pub IsGood : Ledger → Type 0
IsGood l = IsSound l × IsNormal l.registry

pub Keeps-IsGood : (l m : Ledger) → IsNormal l.registry → Keeps l m → IsGood m
Keeps-IsGood l m normal (v, same) = (v, subst IsNormal (sym same) normal)

pub Step-IsGood : (w : World) (l m : Ledger) → Step w l m → IsGood l → IsGood m
Step-IsGood w l m (Step.configure raw e) (v, n) = configure-IsSound w raw l m v n e
Step-IsGood w l m (Step.submit project external plan subscriber id e) (v, n) =
    Keeps-IsGood l m n (submit-IsSound w project external plan subscriber id l m v e)
Step-IsGood w l m (Step.schedule unavailable granted e) (v, n) =
    Keeps-IsGood l m n (schedule-IsSound w unavailable l m granted v e)
Step-IsGood w l m (Step.attach id epoch identity e) (v, n) =
    Keeps-IsGood l m n (attach-IsSound w id epoch identity l m v e)
Step-IsGood w l m (Step.annotate id epoch fields e) (v, n) =
    Keeps-IsGood l m n (annotate-IsSound w id epoch fields l m v e)
Step-IsGood w l m (Step.admit id token s e) (v, n) =
    Keeps-IsGood l m n (admit-IsSound w id token s l m v e)
Step-IsGood w l m (Step.cancel request e) (v, n) =
    Keeps-IsGood l m n (cancel-IsSound w request l m v e)
Step-IsGood w l m (Step.abort id epoch token identity done e) (v, n) =
    Keeps-IsGood l m n (abort_unadmitted-IsSound w id epoch token identity done l m v e)
Step-IsGood w l m (Step.subscribe request contract s remove e) (v, n) =
    Keeps-IsGood l m n (subscribe-IsSound w request contract s remove l m v e)
Step-IsGood w l m (Step.finish id epoch outcome released evidence e) (v, n) =
    Keeps-IsGood l m n (finish-IsSound w id epoch outcome released evidence l m v e)
Step-IsGood w l m (Step.recover id epoch released evidence e) (v, n) =
    Keeps-IsGood l m n (recover-IsSound w id epoch released evidence l m v e)

created-IsGood : IsGood created
unfolding created held owned values occupied lookup
created-IsGood = (record { keyed = tt; dict = tt; safe = λ leaf. refl }, tt)

pub Reached-IsGood : (w : World) (l : Ledger) → Reached w l → IsGood l
Reached-IsGood w _ Reached.new = created-IsGood
Reached-IsGood w m (Reached.then {l} r s) = Step-IsGood w l m s (Reached-IsGood w l r)

-- In a ledger that any sequence of transactions reaches from a new one, the allocations of the
-- stages that own theirs are safe together: on each leaf of the registry their units stay within
-- its capacity, two of them share it only in one compatibility group, and no leaf outside the
-- registry is held.
pub Reached-IsSafe : (w : World) (l : Ledger) → Reached w l → IsSafe l.registry (held l)
Reached-IsSafe w l r = (Reached-IsGood w l r).0.safe
