-- ===== src/Ledger/Subscriptions.antt =====
-- resource_queue.py: `subscribe` and `same_subscriber`, with `same_wake_destination` of binding.py.
-- A subscriber stands here as `validate_subscriber` accepts it.
use orchestrator_engine.Prelude.{
  ℕ, suc, String, Bool, true, false, not, Option, none, some, List, [], ◌∷◌, ◌++◌, ◌==◌,
  if◌then◌else◌, all, find, filter, map, put,
}
use orchestrator_engine.Json
use orchestrator_engine.Json.{Json, Fields}
use orchestrator_engine.Result.{Result, ◌>>=◌, ◌>>◌, guard, contract_differs, pinned_destination}
use orchestrator_engine.Lease.Identity.{at}
use orchestrator_engine.Ledger.State.{Subscriber, Request, Generation, Notice, World, Ledger}
use orchestrator_engine.Ledger.Save.{find_request, event}
use orchestrator_engine.Ledger.Outcomes.{of_subscriber, latest, outcomes}

abbrev pub same_field : Fields → Fields → String → Bool
same_field first second field = Json.eq (at field first) (at field second)

-- A dict, where a None is the empty one.
unfoldable pub dict_of : Json → Fields
dict_of (Json.obj fs) = fs
dict_of _ = Fields.end

unfoldable pub same_wake_destination : Json → Json → Bool
same_wake_destination first second =
    all (same_field (dict_of first) (dict_of second))
      ("schema_version" ∷ "kind" ∷ "host" ∷ "target_thread_id" ∷ "codex_command" ∷ [])

unfoldable pub same_subscriber : Subscriber → Subscriber → Bool
same_subscriber first second =
    if all (same_field first.body second.body) ("id" ∷ "wake" ∷ "wake_policy" ∷ "check_id" ∷ [])
    then same_wake_destination (at "wake_target" first.body) (at "wake_target" second.body)
    else false

-- Nothing is pinned yet, or the same destination is.
unfoldable pub may_follow : Option Subscriber → Subscriber → Bool
may_follow none s = true
may_follow (some old) s = same_subscriber old s

abbrev generation_of : String → Subscriber → ℕ → Generation
generation_of request s n = record {
  request = request;
  subscriber = s.id;
  generation = n;
  body = s;
  active = true;
}

-- A subscriber from before there was a history gets its first generation.
unfoldable pub with_history :
    String → Option Subscriber → Option Generation → List Generation → List Generation
with_history request (some current) none gs = gs ++ generation_of request current 1 ∷ []
with_history request _ _ gs = gs

-- UPDATE subscriber_history SET active=0 WHERE request=? AND subscriber=?
unfoldable pub deactivate : String → String → List Generation → List Generation
deactivate request subscriber =
    map λ g. if of_subscriber request subscriber g then record g { active = false } else g

unfoldable pub next_generation : Option Generation → ℕ
next_generation none = 1
next_generation (some g) = suc g.generation

-- The destination in the last generation.
abbrev pub pinned : Option Generation → Option Subscriber
pinned none = none
pinned (some g) = some (g.body)

-- The row of the request and the history, by the branch.
unfoldable pub resubscribed :
    String
    → Bool
    → Option Subscriber
    → Subscriber
    → Request
    → Option Generation
    → List Generation
    → Request × List Generation
resubscribed request true current s r last gs = (
  record r { subscribers = filter (λ t. not (t.id == s.id)) r.subscribers },
  deactivate request s.id gs,
)
resubscribed request false none s r last gs = (
  record r { subscribers = r.subscribers ++ s ∷ [] },
  deactivate request s.id gs ++ generation_of request s (next_generation last) ∷ [],
)
resubscribed request false (some current) s r last gs = (r, gs)

abbrev pub notice_of : Bool → Notice
notice_of true = Notice.unsubscribed
notice_of false = Notice.subscribed

unfoldable pub subscribe : World → String → String → Subscriber → Bool → Ledger → Result Ledger
subscribe w request contract s remove l = do
  r ← find_request request l
  guard (w.plan_digest r.plan == contract) contract_differs
  let current = find (λ t. t.id == s.id) r.subscribers
  guard (may_follow current s) pinned_destination
  let gs =
      with_history request current (latest (filter (of_subscriber request s.id) l.history))
        l.history
  let last = latest (filter (of_subscriber request s.id) gs)
  guard (may_follow (pinned last) s) pinned_destination
  let (r', gs') = resubscribed request remove current s r last gs
  outcomes w (request ∷ []) (
      event w request (notice_of remove)
        (record l { requests = put request r' l.requests; history = gs' }))
