-- ===== src/Executor/Reached.antt =====
-- executor.py: what holds of `_Scheduler` at every point of a fresh Run where it awaits its tasks,
-- whatever batches `asyncio.wait` returned until then.
use cli_agentic_workflow.Prelude.{
  ◌≤◌, String, List, [], ◌∷◌, some, Bool, true, false, has, length, get, is_some, ◌≡◌, ok, arith,
  eq_iff,
}
use cli_agentic_workflow.State.{StateStore}
use cli_agentic_workflow.Model.Node.{Node}
use cli_agentic_workflow.Model.Order.{by_id}
use cli_agentic_workflow.Model.Order.Degrees.{IsDistinct, pending}
use cli_agentic_workflow.Executor.Scheduler.{Context, Scheduler, Event, result_ids, is_terminal}
use cli_agentic_workflow.Executor.Loop.{Done, run}
use cli_agentic_workflow.Executor.Sound.{resolved, launched, cause_is_blocked}
use cli_agentic_workflow.Executor.Sound.Rounds.{fresh, reached-IsSound}

none_pending :
    (resolved : String → Bool) (needs : List String) (need : String)
    → pending resolved needs ≡ 0
    → has need needs ≡ true
    → resolved need ≡ true
none_pending resolved [] need e h = absurd (ground arith)
none_pending resolved (r ∷ needs) need e h =
    ground (arith, eq_iff r need, eq_iff need r, none_pending resolved needs need)

-- The Run never has more Attempts in flight than the concurrency limit allows, where no two Nodes
-- have one id.
pub in_flight-bound :
    (c : Context) (db : StateStore) (events : List Event) (batches : List (List Done))
    (s : Scheduler)
    → IsDistinct c.ordered
    → run c batches (fresh c db events) ≡ ok s
    → length s.in_flight ≤ c.concurrency
in_flight-bound c db events batches s distinct e =
    (reached-IsSound c db events batches s distinct e).bounded

-- A Node is in flight, finished or parked at its gate only if each Node that it needs has a
-- succeeded result or was skipped, where no two Nodes have one id. In particular no dependent of a
-- Node that failed is ever launched.
pub launched-needs :
    (c : Context) (db : StateStore) (events : List Event) (batches : List (List Done))
    (s : Scheduler) (id : String) (n : Node) (need : String)
    → IsDistinct c.ordered
    → run c batches (fresh c db events) ≡ ok s
    → by_id c.ordered id ≡ some n
    → launched s id ≡ true
    → has need n.needs ≡ true
    → resolved s need ≡ true
launched-needs c db events batches s id n need distinct e k l h =
    none_pending (resolved s) n.needs need
      ((reached-IsSound c db events batches s distinct e).let_past id n k l) h

-- No Node is in flight and terminal at a time, and none has both a result and a skip, where no two
-- Nodes have one id.
pub outcomes-exclusive :
    (c : Context) (db : StateStore) (events : List Event) (batches : List (List Done))
    (s : Scheduler) (id : String)
    → IsDistinct c.ordered
    → run c batches (fresh c db events) ≡ ok s
    → (has id s.in_flight ≡ true → is_terminal s id ≡ false)
      × (has id (result_ids s) ≡ true → has id s.skipped ≡ false)
outcomes-exclusive c db events batches s id distinct e =
    let sound = reached-IsSound c db events batches s distinct e in
    (sound.apart id, sound.exclusive id)

-- A Node has a skip cause exactly when it was skipped, and a blocker exactly when that cause is
-- `blocked`, where no two Nodes have one id.
pub skips-explained :
    (c : Context) (db : StateStore) (events : List Event) (batches : List (List Done))
    (s : Scheduler) (id : String)
    → IsDistinct c.ordered
    → run c batches (fresh c db events) ≡ ok s
    → (has id s.skipped ≡ is_some (get id s.skipped_causes))
      × (cause_is_blocked (get id s.skipped_causes) ≡ is_some (get id s.skipped_blockers))
skips-explained c db events batches s id distinct e =
    let sound = reached-IsSound c db events batches s distinct e in
    (sound.causes id, sound.blockers id)
