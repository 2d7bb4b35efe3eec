-- ===== src/Examples/Resumes.antt =====
-- model.py and executor.py: a Workflow with a human gate, and the resume of a Run parked at it.
use cli_agentic_workflow.Prelude.{
  String, List, [], ◌∷◌, none, true, false, has, ◌≡◌, refl, Result, ok, pos, inr,
}
use cli_agentic_workflow.Status.{RunStatus, NodeStatus}
use cli_agentic_workflow.State.{
  StateStore, run_status, node_statuses, record_attempt, has_attempt, has_node,
  record_node_finished, max_attempt, record_run_running,
}
use cli_agentic_workflow.Model.Node.{
  Node, Inputs, Join, Workflow, check_node, check_inputs, check_unique_needs, must_not_need_itself,
  when_refs_must_be_dependencies, check_timeout, human_gate_rejects_subprocess_fields,
}
use cli_agentic_workflow.Model.Workflow.Valid.{IsValid, check_workflow-IsValid}
use cli_agentic_workflow.Executor.Scheduler.{Context, Scheduler, init, is_open}
use cli_agentic_workflow.Executor.Resume.{
  RunError, Resumed, resume_run, is_resumable, decide, check_decisions, approve_each, seed,
}
use cli_agentic_workflow.Executor.Resume.Decisions.{
  IsAdmitted, resume_run-IsAdmitted, resumed-satisfied,
}
use cli_agentic_workflow.Model.Workflow.{
  check_workflow, check_nodes, node_ids_must_be_unique, check_unique_ids,
  needs_must_reference_known_nodes, check_known, when_refs_must_match_dependency_kind,
}
use cli_agentic_workflow.Model.Text.{require_non_blank, is_blank, unique_valid_env_names}
use cli_agentic_workflow.Model.Order.{
  needs_must_be_acyclic, remaining, peel, peel_loop, start_peel, push_roots, release_all, release,
  dependents, indegrees, index_of, heappush, execution_order, nodes_at, by_id,
}
use cli_agentic_workflow.Model.Workflow.Runs.{check_workflow-IsExecutionOrder}
use cli_agentic_workflow.Model.Order.Ordered.{IsExecutionOrder}

abbrev shell_node : String → List String → Node
shell_node id needs = record {
  id = id;
  inputs = Inputs.shell (record { command = "true"; env = none });
  needs = needs;
  when = none;
  join = Join.all;
  retries = 0;
  timeout = none;
}

abbrev gate_node : Node
gate_node = record {
  id = "gate";
  inputs = Inputs.human_gate (record { prompt = none });
  needs = "build" ∷ [];
  when = none;
  join = Join.all;
  retries = 0;
  timeout = none;
}

abbrev gated : Workflow
gated = record {
  name = "gated";
  version = pos 1;
  nodes = shell_node "build" [] ∷ gate_node ∷ shell_node "ship" ("gate" ∷ []) ∷ [];
  concurrency = 4;
}

gated_checked : check_workflow [] gated ≡ ok tt
unfolding check_workflow check_nodes check_node check_inputs require_non_blank is_blank
    unique_valid_env_names check_unique_needs must_not_need_itself when_refs_must_be_dependencies
    check_timeout human_gate_rejects_subprocess_fields node_ids_must_be_unique check_unique_ids
    needs_must_reference_known_nodes check_known when_refs_must_match_dependency_kind
    needs_must_be_acyclic remaining peel peel_loop start_peel push_roots release_all release
    dependents indegrees index_of heappush
gated_checked = refl

check_workflow-IsValid_example : IsValid gated
check_workflow-IsValid_example = check_workflow-IsValid [] gated gated_checked

abbrev parked_store : StateStore
parked_store = record {
  runs =
      record {
        run_id = "run";
        workflow_name = "gated";
        definition_checksum = "sum";
        status = RunStatus.parked;
        created_at = "now";
        finished_at = none;
        error = none;
      }
      ∷ [];
  nodes =
      record { run_id = "run"; node_id = "build"; status = NodeStatus.succeeded; cause = none }
      ∷ record { run_id = "run"; node_id = "gate"; status = NodeStatus.awaiting; cause = none }
      ∷ [];
  attempts = [];
  memberships = [];
}

abbrev sum_of : Workflow → String
sum_of w = "sum"

abbrev resumed : Result RunError Resumed
resumed = resume_run "run" "later" sum_of "sum" true gated ("gate" ∷ []) [] parked_store

abbrev context_or : Context → Result RunError Resumed → Context
context_or c (ok (Resumed.driven d s)) = d
context_or c _ = c

abbrev scheduler_or : Scheduler → Result RunError Resumed → Scheduler
scheduler_or t (ok (Resumed.driven c s)) = s
scheduler_or t _ = t

abbrev idle : Context
idle = record { run_id = ""; concurrency = 0; ordered = [] }

abbrev idle_scheduler : Scheduler
idle_scheduler = init idle parked_store [] [] [] [] []

resumed_driven :
    resumed ≡ ok (Resumed.driven (context_or idle resumed) (scheduler_or idle_scheduler resumed))
unfolding resume_run is_resumable run_status decide check_decisions node_statuses approve_each
    record_attempt has_attempt has_node record_node_finished seed init max_attempt
    record_run_running execution_order remaining nodes_at by_id peel peel_loop start_peel push_roots
    release_all release dependents indegrees index_of heappush
resumed_driven = refl

resume_run-IsAdmitted_example :
    IsAdmitted "run" sum_of "sum" gated
      ("gate" ∷ [])
      []
      parked_store
      (Resumed.driven (context_or idle resumed) (scheduler_or idle_scheduler resumed))
resume_run-IsAdmitted_example =
    resume_run-IsAdmitted "run" "later" sum_of "sum" true gated ("gate" ∷ []) [] parked_store
      (Resumed.driven (context_or idle resumed) (scheduler_or idle_scheduler resumed))
      resumed_driven

resumed-satisfied_example :
    (has "gate" (scheduler_or idle_scheduler resumed).satisfied ≡ true)
    × (is_open (scheduler_or idle_scheduler resumed) "gate" ≡ false)
resumed-satisfied_example =
    resumed-satisfied "run" "later" sum_of "sum" true gated ("gate" ∷ []) [] parked_store
      (context_or idle resumed) (scheduler_or idle_scheduler resumed) "gate" resumed_driven
      (inr refl)

check_workflow-IsExecutionOrder_example :
    (ns : List Node) × (execution_order gated ≡ ok ns) × IsExecutionOrder gated.nodes ns
check_workflow-IsExecutionOrder_example = check_workflow-IsExecutionOrder [] gated gated_checked
