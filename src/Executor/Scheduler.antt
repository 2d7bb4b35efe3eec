-- ===== src/Executor/Scheduler.antt =====
-- executor.py, lines 548-662: the state of `_Scheduler`, and readiness.
use cli_agentic_workflow.Prelude.{
  ℕ, String, List, [], ◌∷◌, ◌++◌, Option, none, some, Bool, not, ◌&&◌, ◌||◌, ◌==◌, ℤ, pos, Result,
  ok, raised, has, keep, map, Dict, get, if◌then◌else◌, length,
}
use cli_agentic_workflow.Status.{RunStatus, NodeStatus, FailureKind}
use cli_agentic_workflow.Evaluate.{Output}
use cli_agentic_workflow.State.{StateStore, SkipCause, IntegrityError, Written, node_output}
use cli_agentic_workflow.Model.Node.{Node}
use cli_agentic_workflow.Model.Order.{dependents, decrement_all, is_zero}
use cli_agentic_workflow.Executor.Outcome.{NodeResult, normalized_output}

-- The lines that `EventLog.append` writes, less their time stamps.
pub data Event : Type 0 where
  run_started run_resumed : (workflow_name : String) → Event
  run_finished : RunStatus → Event
  run_errored : (error : String) (node_ids : List String) → Event
  node_started : (node_id : String) (attempt : ℕ) → Event
  node_finished : (node_id : String) (attempt : ℕ) (exit_status : ℤ) (status : NodeStatus) → Event
  node_retrying : (node_id : String) (next_attempt : ℕ) (kind : Option FailureKind) → Event
  node_skipped : (node_id : String) (cause : SkipCause) (blocked_by : Option String) → Event
  gate_awaiting gate_approved gate_rejected : (node_id : String) → Event

-- The exceptions that leave the scheduler. `out_of_fuel` is none of the program's: it says that a
-- loop of the model was cut off.
pub data Error : Type 0 where
  integrity_error : IntegrityError → Error
  no_recorded_output : String → Error
  assertion_error key_error out_of_fuel : Error
  task_crash : String → Error

-- What does not change in a Run: its id, the limit, and the Nodes in execution order.
pub record Context : Type 0 where
  pub run_id : String
  pub concurrency : ℕ
  pub ordered : List Node

-- The fields that do. Of an `asyncio.Task` in `in_flight` its Node is kept. A Python set is a list;
-- `_skipped_set` and `_result_ids` mirror `skipped` and the ids of `results`, and are read as such.
pub record Scheduler : Type 0 where
  pub state : StateStore
  pub events : List Event
  pub indegree : Dict ℤ
  pub in_flight : List String
  pub results : List NodeResult
  pub skipped : List String
  pub skipped_blockers : Dict String
  pub skipped_causes : Dict SkipCause
  pub awaiting : List String
  pub awaiting_already : List String
  pub attempt : Dict ℕ
  pub started : List String
  pub satisfied : List String

abbrev pub Step : Type 0
Step = Result Error Scheduler

abbrev pub result_ids : Scheduler → List String
result_ids s = map (λ r. r.node_id) s.results

abbrev pub append_event : Event → Scheduler → Scheduler
append_event e s = record s { events = s.events ++ e ∷ [] }

-- A write to State that may breach a key, with `State` put back.
abbrev pub written : Written → Scheduler → Step
written (ok db) s = ok (record s { state = db })
written (raised e) s = raised (integrity_error e)

-- `not in running and not in done`
unfoldable pub is_open : Scheduler → String → Bool
is_open s id =
    not (has id s.in_flight)
    && not (has id (result_ids s))
    && not (has id s.skipped)
    && not (has id s.satisfied)
    && not (has id s.awaiting)

unfoldable pub is_ready : Scheduler → Node → Bool
unfolding is_open
is_ready s n = is_zero (get n.id s.indegree) && is_open s n.id

unfoldable pub ready_nodes : Context → Scheduler → List Node
unfolding is_ready
ready_nodes c s = keep (is_ready s) c.ordered

-- `_is_terminal`
unfoldable pub is_terminal : Scheduler → String → Bool
is_terminal s id = has id (result_ids s) || has id s.skipped

abbrev find_result : String → List NodeResult → Option NodeResult
find_result id [] = none
find_result id (r ∷ rest) = if r.node_id == id then some r else find_result id rest

-- `_output_of`
unfoldable pub output_of : Context → Scheduler → String → Result Error (Option Output)
output_of c s id = elim (find_result id s.results) [
  | some r ↦ ok (some (normalized_output r))
  | none ↦ elim (node_output c.run_id id s.state) [
    | some o ↦ ok (some o)
    | none ↦ if has id s.skipped then ok none else raised (no_recorded_output id)
  ]
]

-- `_on_success` and `_on_skip`, which have one body.
unfoldable pub release_dependents : Context → String → Scheduler → Scheduler
release_dependents c id s = record s {
  indegree = decrement_all (dependents c.ordered id) s.indegree;
}

-- `__init__`: the in-degrees, less one for each need that the seed satisfies.
abbrev pub needs_counts : List Node → Dict ℤ
needs_counts [] = []
needs_counts (n ∷ nodes) = (n.id, pos (length n.needs)) ∷ needs_counts nodes

abbrev pub release_each : List Node → List String → Dict ℤ → Dict ℤ
release_each nodes [] d = d
release_each nodes (x ∷ xs) d = release_each nodes xs (decrement_all (dependents nodes x) d)

unfoldable pub init :
    Context
    → StateStore
    → List Event
    → (satisfied_seed : List String) (attempt_seed : Dict ℕ)
      (started_seed awaiting_seed : List String)
    → Scheduler
init c state events satisfied_seed attempt_seed started_seed awaiting_seed = record {
  state = state;
  events = events;
  indegree = release_each c.ordered satisfied_seed (needs_counts c.ordered);
  in_flight = [];
  results = [];
  skipped = [];
  skipped_blockers = [];
  skipped_causes = [];
  awaiting = [];
  awaiting_already = awaiting_seed;
  attempt = attempt_seed;
  started = started_seed;
  satisfied = satisfied_seed;
}
