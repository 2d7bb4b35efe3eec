-- ===== src/Examples/Runs.antt =====
-- executor.py: a Run of four Nodes, of which two have ended, and the scheduler's theorems on it.
use cli_agentic_workflow.Prelude.{
  ◌≤◌, String, List, [], ◌∷◌, Option, none, some, true, false, has, length, get, is_some, ◌≡◌, ◌≢◌,
  refl, Result, ok, raised, pos,
}
use cli_agentic_workflow.Status.{RunStatus, FailureKind}
use cli_agentic_workflow.Value.{Value}
use cli_agentic_workflow.State.{
  run_status, StateStore, record_node_started, record_attempt, record_node_finished,
  record_node_skipped, insert_node, has_run, has_node, has_attempt,
}
use cli_agentic_workflow.Model.Node.{Node, Inputs, Join}
use cli_agentic_workflow.Model.Order.{by_id, dependents}
use cli_agentic_workflow.Executor.Outcome.{
  NodeResult, succeeded, retryable, status, normalized_output,
}
use cli_agentic_workflow.Executor.Scheduler.{
  out_of_fuel, Context, Scheduler, Error, result_ids, is_terminal, release_dependents, ready_nodes,
  is_ready, is_open, init,
}
use cli_agentic_workflow.Executor.Loop.{
  finalize_run, Done, run, rounds, round, handle_batch, handle_finished,
}
use cli_agentic_workflow.Executor.Sound.{resolved, launched, cause_is_blocked}
use cli_agentic_workflow.Executor.Sound.Rounds.{fresh}
use cli_agentic_workflow.Executor.Retries.Rounds.{attempt-bound}
use cli_agentic_workflow.Executor.Loop.Final.{finalize_run-run_status, IsRunEnd}
use cli_agentic_workflow.Executor.Ends.Rounds.{run-ends}
use cli_agentic_workflow.Executor.Reached.{
  in_flight-bound, launched-needs, outcomes-exclusive, skips-explained,
}
use cli_agentic_workflow.Executor.Launch.{
  launch_ready, launch_loop, launch_pass, visit, gate_open, launch, park_gate,
}
use cli_agentic_workflow.Executor.Attempts.{
  handle_result, record_attempt_of, on_succeeded, on_failed,
}
use cli_agentic_workflow.Executor.Skips.{
  skip_failed_dependents, propagate_skips, walk_skips, judge, verdict, skip_in_walk, record_skip,
}

abbrev shell_node : String → List String → Node
shell_node id needs = record {
  id = id;
  inputs = Inputs.shell (record { command = "true"; env = none });
  needs = needs;
  when = none;
  join = Join.all;
  retries = 0;
  timeout = none;
}

abbrev node_b : Node
node_b = shell_node "b" ("a" ∷ [])

abbrev nodes : List Node
nodes = shell_node "a" [] ∷ shell_node "d" [] ∷ node_b ∷ shell_node "e" ("d" ∷ []) ∷ []

abbrev context : Context
context = record { run_id = "run"; concurrency = 2; ordered = nodes }

abbrev store : StateStore
store = record {
  runs =
      record {
        run_id = "run";
        workflow_name = "w";
        definition_checksum = "c";
        status = RunStatus.running;
        created_at = "now";
        finished_at = none;
        error = none;
      }
      ∷ [];
  nodes = [];
  attempts = [];
  memberships = [];
}

abbrev result : String → Option FailureKind → NodeResult
result id kind = record {
  node_id = id;
  exit_status = pos 0;
  stdout = "";
  stderr = "";
  started_at = "now";
  finished_at = "now";
  structured_output = Value.null;
  artifacts = [];
  failure_kind = kind;
  adapter = none;
  attempt = 1;
}

-- `a` succeeds and `d` fails.
abbrev batches : List (List Done)
batches =
    (Done.finished (result "a" none) ∷ Done.finished (result "d" (some FailureKind.failed)) ∷ [])
    ∷ []

abbrev value_or : Scheduler → Result Error Scheduler → Scheduler
value_or s (ok t) = t
value_or s (raised e) = s

abbrev reached : Scheduler
reached = value_or (fresh context store []) (run context batches (fresh context store []))

run-reached : run context batches (fresh context store []) ≡ ok reached
unfolding run launch_ready launch_loop launch_pass visit gate_open launch park_gate rounds round
    handle_batch handle_finished handle_result record_attempt_of on_succeeded on_failed
    skip_failed_dependents propagate_skips walk_skips judge verdict skip_in_walk record_skip
    release_dependents ready_nodes is_ready is_open is_terminal init dependents by_id succeeded
    retryable status normalized_output record_node_started record_attempt record_node_finished
    record_node_skipped insert_node has_run has_node has_attempt
run-reached = refl

b_found : by_id nodes "b" ≡ some node_b
unfolding by_id
b_found = refl

b_launched : launched reached "b" ≡ true
unfolding run launch_ready launch_loop launch_pass visit gate_open launch park_gate rounds round
    handle_batch handle_finished handle_result record_attempt_of on_succeeded on_failed
    skip_failed_dependents propagate_skips walk_skips judge verdict skip_in_walk record_skip
    release_dependents ready_nodes is_ready is_open is_terminal init dependents by_id succeeded
    retryable status normalized_output record_node_started record_attempt record_node_finished
    record_node_skipped insert_node has_run has_node has_attempt
b_launched = refl

b_attempt : get "b" reached.attempt ≡ some 1
unfolding run launch_ready launch_loop launch_pass visit gate_open launch park_gate rounds round
    handle_batch handle_finished handle_result record_attempt_of on_succeeded on_failed
    skip_failed_dependents propagate_skips walk_skips judge verdict skip_in_walk record_skip
    release_dependents ready_nodes is_ready is_open is_terminal init dependents by_id succeeded
    retryable status normalized_output record_node_started record_attempt record_node_finished
    record_node_skipped insert_node has_run has_node has_attempt
b_attempt = refl

in_flight-bound_example : length reached.in_flight ≤ 2
in_flight-bound_example =
    in_flight-bound context store [] batches reached (refl, (refl, (refl, (refl, tt)))) run-reached

launched-needs_example : resolved reached "a" ≡ true
launched-needs_example =
    launched-needs context store [] batches reached "b" node_b "a"
      (refl, (refl, (refl, (refl, tt)))) run-reached b_found b_launched refl

outcomes-exclusive_example :
    (has "a" reached.in_flight ≡ true → is_terminal reached "a" ≡ false)
    × (has "a" (result_ids reached) ≡ true → has "a" reached.skipped ≡ false)
outcomes-exclusive_example =
    outcomes-exclusive context store [] batches reached "a" (refl, (refl, (refl, (refl, tt))))
      run-reached

skips-explained_example :
    (has "e" reached.skipped ≡ is_some (get "e" reached.skipped_causes))
    × (cause_is_blocked (get "e" reached.skipped_causes)
        ≡ is_some (get "e" reached.skipped_blockers))
skips-explained_example =
    skips-explained context store [] batches reached "e" (refl, (refl, (refl, (refl, tt))))
      run-reached

run-ends_example : run context batches (fresh context store []) ≢ raised out_of_fuel
run-ends_example = run-ends context batches (fresh context store [])

attempt-bound_example : 1 ≤ 1
attempt-bound_example =
    attempt-bound context store [] batches reached "b" node_b 1 run-reached b_found b_attempt

reached_recorded : has_run "run" reached.state ≡ true
unfolding run launch_ready launch_loop launch_pass visit gate_open launch park_gate rounds round
    handle_batch handle_finished handle_result record_attempt_of on_succeeded on_failed
    skip_failed_dependents propagate_skips walk_skips judge verdict skip_in_walk record_skip
    release_dependents ready_nodes is_ready is_open is_terminal init dependents by_id succeeded
    retryable status normalized_output record_node_started record_attempt record_node_finished
    record_node_skipped insert_node has_run has_node has_attempt
reached_recorded = refl

finalize_run-run_status_example :
    (t : RunStatus) × (run_status "run" (finalize_run context "later" reached).state ≡ some t)
    × IsRunEnd context reached t
finalize_run-run_status_example = finalize_run-run_status context "later" reached reached_recorded
