-- ===== src/Examples/Tournaments.antt =====
-- controller.py: tournaments of two rounds, and the theorems on them.
use cli_agentic_workflow.Controller.Drive.{
  Step, judge_done, judge_verification, run_iteration, iteration_verdict, drive_round, drive_loop,
  drive, run_group, continue, resume_last, resume_from, resume_group,
}
use cli_agentic_workflow.Examples.Group.{
  new_group, raw, tournament_spec, green, text_of, world_or, result_or, runner, store, said,
  name_of,
}
use cli_agentic_workflow.Prelude.{
  true, ℕ, ok, none, arith, ◌≢◌, some, refl, Bool, ◌≡◌, false, ◌∷◌, [],
}
use cli_agentic_workflow.Value.{Value, py_eq, field_at, count_items, item_at}
use cli_agentic_workflow.State.{
  has_run, has_node, has_attempt, record_run_started, record_run_finished, record_run_running,
  record_run_errored, record_run_parked, insert_node, record_node_started, record_node_running,
  record_node_finished, record_node_skipped, record_node_awaiting, record_attempt,
  record_run_group_membership, run_group_membership, run_status, node_statuses, node_causes,
  node_output, max_attempt,
}
use cli_agentic_workflow.Status.{RunStatus}
use cli_agentic_workflow.Evaluate.{
  index_list, address_step, address_sub_path, rstrip_newlines, read_field, address_field,
  equals_value, contains_value, compare_leaf, evaluate_leaf, evaluate_predicate,
}
use cli_agentic_workflow.Controller.Tournament.{
  round_substitutions, persist_tournament_state, tournament_result, winner_in, round_winner,
  tournament_round, tournament_loop, drive_tournament, run_tournament, continue_tournament,
  resume_last_round, resume_round, resume_tournament,
}
use cli_agentic_workflow.Controller.Materialize.{
  feedback_substitution, set_field, id_at, inputs_at, substitute_all, substitute_node,
  substitute_nodes, ids_in, missing_targets, materialize_iteration_raw,
}
use cli_agentic_workflow.Controller.Group.{
  GroupStatus, IterationResult, GroupState, World, refs_must_target,
  done_refs_must_target_evaluate_node, verdict_refs_must_target_verify_node, evaluate_node_output,
  feedback_value, next_feedback, record_membership, holds, persist_group_state,
}
use cli_agentic_workflow.Controller.Tournament.Complete.{
  IsTournamentEnd, run_tournament-IsTournamentEnd,
}
use cli_agentic_workflow.Controller.Tournament.Resumed.{
  resume_tournament-stale, resume_tournament-winnerless,
}
use cli_agentic_workflow.Executor.Resume.{
  is_resumable, check_decisions, start_run, decline, approve_each, seed, decide, resume_run,
}
use cli_agentic_workflow.Executor.Outcome.{
  succeeded, status, retryable, normalized_output, parked, rejected, run_succeeded,
  run_result_status,
}

abbrev compared : Value → Step
compared second = run_tournament (runner second) "group" text_of tournament_spec raw new_group

compared_ok : compared green ≡ ok (result_or (compared green), world_or (compared green))
unfolding feedback_substitution set_field id_at inputs_at substitute_all substitute_node
    substitute_nodes ids_in missing_targets materialize_iteration_raw refs_must_target
    done_refs_must_target_evaluate_node verdict_refs_must_target_verify_node evaluate_node_output
    feedback_value next_feedback record_membership holds persist_group_state judge_done
    judge_verification run_iteration iteration_verdict drive_round drive_loop drive run_group
    continue resume_last resume_from resume_group round_substitutions persist_tournament_state
    winner_in round_winner tournament_round tournament_loop drive_tournament run_tournament
    continue_tournament resume_last_round resume_round resume_tournament has_run has_node
    has_attempt record_run_started record_run_finished record_run_running record_run_errored
    record_run_parked insert_node record_node_started record_node_running record_node_finished
    record_node_skipped record_node_awaiting record_attempt record_run_group_membership
    run_group_membership run_status node_statuses node_causes node_output max_attempt index_list
    address_step address_sub_path rstrip_newlines read_field address_field equals_value
    contains_value compare_leaf evaluate_leaf evaluate_predicate succeeded status retryable
    normalized_output parked rejected run_succeeded run_result_status is_resumable check_decisions
    start_run decline approve_each seed decide resume_run py_eq field_at count_items item_at
compared_ok = refl

compared_winner : (result_or (compared green)).winner ≡ some "green"
unfolding feedback_substitution set_field id_at inputs_at substitute_all substitute_node
    substitute_nodes ids_in missing_targets materialize_iteration_raw refs_must_target
    done_refs_must_target_evaluate_node verdict_refs_must_target_verify_node evaluate_node_output
    feedback_value next_feedback record_membership holds persist_group_state judge_done
    judge_verification run_iteration iteration_verdict drive_round drive_loop drive run_group
    continue resume_last resume_from resume_group round_substitutions persist_tournament_state
    winner_in round_winner tournament_round tournament_loop drive_tournament run_tournament
    continue_tournament resume_last_round resume_round resume_tournament has_run has_node
    has_attempt record_run_started record_run_finished record_run_running record_run_errored
    record_run_parked insert_node record_node_started record_node_running record_node_finished
    record_node_skipped record_node_awaiting record_attempt record_run_group_membership
    run_group_membership run_status node_statuses node_causes node_output max_attempt index_list
    address_step address_sub_path rstrip_newlines read_field address_field equals_value
    contains_value compare_leaf evaluate_leaf evaluate_predicate succeeded status retryable
    normalized_output parked rejected run_succeeded run_result_status is_resumable check_decisions
    start_run decline approve_each seed decide resume_run py_eq field_at count_items item_at
compared_winner = refl

run_tournament-IsTournamentEnd_example :
    IsTournamentEnd text_of tournament_spec (result_or (compared green)) (world_or (compared green))
run_tournament-IsTournamentEnd_example =
    run_tournament-IsTournamentEnd (runner green) "group" text_of tournament_spec raw new_group
      (world_or (compared green)) (result_or (compared green)) (omega arith) compared_ok

abbrev iteration : ℕ → Bool → IterationResult
iteration n b = record { iteration_index = n; run_id = name_of n; succeeded = b }

-- Two rounds are recorded; the last has the given status and no winner.
abbrev left_at : RunStatus → Bool → World
left_at t b = record {
  dirs =
      ("first", store "first" RunStatus.succeeded (said green 0))
      ∷ ("second", store "second" t (said Value.null 1))
      ∷ [];
  group = some (record {
    status = GroupStatus.failed;
    iterations =
        record { iteration = iteration 0 true; promoted = some (some "red") }
        ∷ record { iteration = iteration 1 b; promoted = some none }
        ∷ [];
    winner = some none;
  });
}

abbrev group_or : World → GroupState
group_or w = elim w.group [
  | some g ↦ g
  | none ↦ record { status = GroupStatus.running; iterations = []; winner = none }
]

abbrev resumed : World → Step
resumed w = resume_tournament (runner green) "group" text_of tournament_spec raw w

abbrev interrupted : World
interrupted = left_at RunStatus.parked false

resumed_ok :
    resumed interrupted ≡ ok (result_or (resumed interrupted), world_or (resumed interrupted))
unfolding feedback_substitution set_field id_at inputs_at substitute_all substitute_node
    substitute_nodes ids_in missing_targets materialize_iteration_raw refs_must_target
    done_refs_must_target_evaluate_node verdict_refs_must_target_verify_node evaluate_node_output
    feedback_value next_feedback record_membership holds persist_group_state judge_done
    judge_verification run_iteration iteration_verdict drive_round drive_loop drive run_group
    continue resume_last resume_from resume_group round_substitutions persist_tournament_state
    winner_in round_winner tournament_round tournament_loop drive_tournament run_tournament
    continue_tournament resume_last_round resume_round resume_tournament has_run has_node
    has_attempt record_run_started record_run_finished record_run_running record_run_errored
    record_run_parked insert_node record_node_started record_node_running record_node_finished
    record_node_skipped record_node_awaiting record_attempt record_run_group_membership
    run_group_membership run_status node_statuses node_causes node_output max_attempt index_list
    address_step address_sub_path rstrip_newlines read_field address_field equals_value
    contains_value compare_leaf evaluate_leaf evaluate_predicate succeeded status retryable
    normalized_output parked rejected run_succeeded run_result_status is_resumable check_decisions
    start_run decline approve_each seed decide resume_run py_eq field_at count_items item_at
resumed_ok = refl

resumed_status : (result_or (resumed interrupted)).status ≡ GroupStatus.complete
unfolding feedback_substitution set_field id_at inputs_at substitute_all substitute_node
    substitute_nodes ids_in missing_targets materialize_iteration_raw refs_must_target
    done_refs_must_target_evaluate_node verdict_refs_must_target_verify_node evaluate_node_output
    feedback_value next_feedback record_membership holds persist_group_state judge_done
    judge_verification run_iteration iteration_verdict drive_round drive_loop drive run_group
    continue resume_last resume_from resume_group round_substitutions persist_tournament_state
    winner_in round_winner tournament_round tournament_loop drive_tournament run_tournament
    continue_tournament resume_last_round resume_round resume_tournament has_run has_node
    has_attempt record_run_started record_run_finished record_run_running record_run_errored
    record_run_parked insert_node record_node_started record_node_running record_node_finished
    record_node_skipped record_node_awaiting record_attempt record_run_group_membership
    run_group_membership run_status node_statuses node_causes node_output max_attempt index_list
    address_step address_sub_path rstrip_newlines read_field address_field equals_value
    contains_value compare_leaf evaluate_leaf evaluate_predicate succeeded status retryable
    normalized_output parked rejected run_succeeded run_result_status is_resumable check_decisions
    start_run decline approve_each seed decide resume_run py_eq field_at count_items item_at
resumed_status = refl

resume_tournament-stale_example :
    (g : GroupState) × (((world_or (resumed interrupted)).group ≡ some g)
      × (g.status ≢ GroupStatus.complete))
resume_tournament-stale_example =
    resume_tournament-stale (runner green) "group" text_of tournament_spec raw interrupted
      (world_or (resumed interrupted)) (group_or interrupted) (result_or (resumed interrupted)) refl
      (omega arith) resumed_ok resumed_status

second_succeeded :
    run_status "second" (store "second" RunStatus.succeeded (said Value.null 1))
    ≡ some RunStatus.succeeded
unfolding feedback_substitution set_field id_at inputs_at substitute_all substitute_node
    substitute_nodes ids_in missing_targets materialize_iteration_raw refs_must_target
    done_refs_must_target_evaluate_node verdict_refs_must_target_verify_node evaluate_node_output
    feedback_value next_feedback record_membership holds persist_group_state judge_done
    judge_verification run_iteration iteration_verdict drive_round drive_loop drive run_group
    continue resume_last resume_from resume_group round_substitutions persist_tournament_state
    winner_in round_winner tournament_round tournament_loop drive_tournament run_tournament
    continue_tournament resume_last_round resume_round resume_tournament has_run has_node
    has_attempt record_run_started record_run_finished record_run_running record_run_errored
    record_run_parked insert_node record_node_started record_node_running record_node_finished
    record_node_skipped record_node_awaiting record_attempt record_run_group_membership
    run_group_membership run_status node_statuses node_causes node_output max_attempt index_list
    address_step address_sub_path rstrip_newlines read_field address_field equals_value
    contains_value compare_leaf evaluate_leaf evaluate_predicate succeeded status retryable
    normalized_output parked rejected run_succeeded run_result_status is_resumable check_decisions
    start_run decline approve_each seed decide resume_run py_eq field_at count_items item_at
second_succeeded = refl

resume_tournament-winnerless_example :
    resumed (left_at RunStatus.succeeded true)
    ≡ ok (
      tournament_result GroupStatus.complete (iteration 0 true ∷ iteration 1 true ∷ []) none,
      left_at RunStatus.succeeded true,
    )
resume_tournament-winnerless_example =
    resume_tournament-winnerless (runner green) "group" text_of tournament_spec raw
      (left_at RunStatus.succeeded true) (group_or (left_at RunStatus.succeeded true))
      (iteration 0 true ∷ []) (iteration 1 true)
      (store "second" RunStatus.succeeded (said Value.null 1)) refl refl refl (omega arith) refl
      refl second_succeeded
