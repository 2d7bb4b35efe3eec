-- ===== src/Examples/Controllers.antt =====
-- controller.py: loops and verifications that run, or are resumed, and the theorems on them.
use cli_agentic_workflow.Controller.Drive.{
  Step, judge_done, judge_verification, loop_policy, adversarial_policy, run_iteration,
  iteration_verdict, drive_round, drive_loop, drive, run_group, continue, resume_last, resume_from,
  resume_group,
}
use cli_agentic_workflow.Controller.Materialize.{
  out_of_fuel, ControllerError, Substitution, feedback_substitution, set_field, id_at, inputs_at,
  substitute_all, substitute_node, substitute_nodes, ids_in, missing_targets,
  materialize_iteration_raw,
}
use cli_agentic_workflow.Examples.Group.{
  new_group, raw, loop_spec, verification_spec, green, world_or, result_or, runner, store, said,
}
use cli_agentic_workflow.Prelude.{
  Result, true, ok, none, raised, ◌≢◌, some, List, refl, ◌≡◌, ◌∷◌, [],
}
use cli_agentic_workflow.Value.{Value, Fields, py_eq, field_at, count_items, item_at}
use cli_agentic_workflow.State.{
  has_run, has_node, has_attempt, record_run_started, record_run_finished, record_run_running,
  record_run_errored, record_run_parked, insert_node, record_node_started, record_node_running,
  record_node_finished, record_node_skipped, record_node_awaiting, record_attempt,
  record_run_group_membership, run_group_membership, run_status, node_statuses, node_causes,
  node_output, max_attempt,
}
use cli_agentic_workflow.Status.{RunStatus}
use cli_agentic_workflow.Evaluate.{
  index_list, address_step, address_sub_path, rstrip_newlines, read_field, address_field,
  equals_value, contains_value, compare_leaf, evaluate_leaf, evaluate_predicate,
}
use cli_agentic_workflow.Controller.Entries.{
  run_adversarial_verification, IsLoopEnd, IsVerificationEnd, run_loop_until_done-IsLoopEnd,
  run_adversarial_verification-IsVerificationEnd,
}
use cli_agentic_workflow.Controller.Group.{
  GroupStatus, IterationResult, GroupState, World, refs_must_target,
  done_refs_must_target_evaluate_node, verdict_refs_must_target_verify_node, evaluate_node_output,
  feedback_value, next_feedback, record_membership, holds, persist_group_state,
}
use cli_agentic_workflow.Controller.Drive.Ends.{run_group-ends}
use cli_agentic_workflow.Controller.Drive.Outcome.{IsOutcome, run_group-IsOutcome, HasRecord}
use cli_agentic_workflow.Controller.Materialize.Fed.{
  IsMaterialized, materialize_iteration_raw-IsMaterialized,
}
use cli_agentic_workflow.Controller.Entries.Kept.{IsKept, resume_group-IsKept}
use cli_agentic_workflow.Executor.Resume.{
  is_resumable, check_decisions, start_run, decline, approve_each, seed, decide, resume_run,
}
use cli_agentic_workflow.Executor.Outcome.{
  succeeded, status, retryable, normalized_output, parked, rejected, run_succeeded,
  run_result_status,
}

abbrev fed_with : List Substitution
fed_with = record { to_node = "check"; to_field = "last"; value = Value.str "red" } ∷ []

abbrev fields_or : Result ControllerError Fields → Fields
fields_or (ok d) = d
fields_or (raised e) = Fields.end

materialized_ok :
    materialize_iteration_raw raw fed_with ≡ ok (fields_or (materialize_iteration_raw raw fed_with))
unfolding feedback_substitution set_field id_at inputs_at substitute_all substitute_node
    substitute_nodes ids_in missing_targets materialize_iteration_raw py_eq field_at count_items
    item_at
materialized_ok = refl

materialize_iteration_raw-IsMaterialized_example :
    IsMaterialized raw fed_with (fields_or (materialize_iteration_raw raw fed_with))
materialize_iteration_raw-IsMaterialized_example =
    materialize_iteration_raw-IsMaterialized raw fed_with
      (fields_or (materialize_iteration_raw raw fed_with)) materialized_ok

abbrev looped : Step
looped = run_group (runner green) "group" (loop_policy loop_spec) raw new_group

looped_ok : looped ≡ ok (result_or looped, world_or looped)
unfolding feedback_substitution set_field id_at inputs_at substitute_all substitute_node
    substitute_nodes ids_in missing_targets materialize_iteration_raw refs_must_target
    done_refs_must_target_evaluate_node verdict_refs_must_target_verify_node evaluate_node_output
    feedback_value next_feedback record_membership holds persist_group_state judge_done
    judge_verification run_iteration iteration_verdict drive_round drive_loop drive run_group
    continue resume_last resume_from resume_group has_run has_node has_attempt record_run_started
    record_run_finished record_run_running record_run_errored record_run_parked insert_node
    record_node_started record_node_running record_node_finished record_node_skipped
    record_node_awaiting record_attempt record_run_group_membership run_group_membership run_status
    node_statuses node_causes node_output max_attempt index_list address_step address_sub_path
    rstrip_newlines read_field address_field equals_value contains_value compare_leaf evaluate_leaf
    evaluate_predicate succeeded status retryable normalized_output parked rejected run_succeeded
    run_result_status is_resumable check_decisions start_run decline approve_each seed decide
    resume_run py_eq field_at count_items item_at
looped_ok = refl

looped_status : (result_or looped).status ≡ GroupStatus.done
unfolding feedback_substitution set_field id_at inputs_at substitute_all substitute_node
    substitute_nodes ids_in missing_targets materialize_iteration_raw refs_must_target
    done_refs_must_target_evaluate_node verdict_refs_must_target_verify_node evaluate_node_output
    feedback_value next_feedback record_membership holds persist_group_state judge_done
    judge_verification run_iteration iteration_verdict drive_round drive_loop drive run_group
    continue resume_last resume_from resume_group has_run has_node has_attempt record_run_started
    record_run_finished record_run_running record_run_errored record_run_parked insert_node
    record_node_started record_node_running record_node_finished record_node_skipped
    record_node_awaiting record_attempt record_run_group_membership run_group_membership run_status
    node_statuses node_causes node_output max_attempt index_list address_step address_sub_path
    rstrip_newlines read_field address_field equals_value contains_value compare_leaf evaluate_leaf
    evaluate_predicate succeeded status retryable normalized_output parked rejected run_succeeded
    run_result_status is_resumable check_decisions start_run decline approve_each seed decide
    resume_run py_eq field_at count_items item_at
looped_status = refl

run_group-IsOutcome_example : IsOutcome (loop_policy loop_spec) (result_or looped) (world_or looped)
run_group-IsOutcome_example =
    run_group-IsOutcome (runner green) "group" (loop_policy loop_spec) raw new_group
      (world_or looped) (result_or looped) looped_ok

run_group-ends_example :
    (run_group (runner green) "group" (loop_policy loop_spec) raw new_group ≢ raised out_of_fuel)
    × (run_group (runner green) "group" (adversarial_policy verification_spec) raw new_group
        ≢ raised out_of_fuel)
run_group-ends_example =
    run_group-ends (runner green) "group" loop_spec verification_spec raw new_group (record {
      normalizes = λ raw. refl;
      executes = λ w dirs. refl;
      resumes = λ run_id dirs. refl;
    })

run_loop_until_done-IsLoopEnd_example :
    IsLoopEnd loop_spec
      (world_or looped).dirs
      (result_or looped).status
      (result_or looped).iterations
    × HasRecord (world_or looped) (result_or looped).status (result_or looped).iterations
run_loop_until_done-IsLoopEnd_example =
    run_loop_until_done-IsLoopEnd (runner green) "group" loop_spec raw new_group (world_or looped)
      (result_or looped) looped_ok

-- No output is green: three rounds, and the cap rejects.
abbrev verified : Step
verified =
    run_adversarial_verification (runner (Value.str "blue")) "group" verification_spec raw new_group

verified_ok : verified ≡ ok (result_or verified, world_or verified)
unfolding feedback_substitution set_field id_at inputs_at substitute_all substitute_node
    substitute_nodes ids_in missing_targets materialize_iteration_raw refs_must_target
    done_refs_must_target_evaluate_node verdict_refs_must_target_verify_node evaluate_node_output
    feedback_value next_feedback record_membership holds persist_group_state judge_done
    judge_verification run_iteration iteration_verdict drive_round drive_loop drive run_group
    continue resume_last resume_from resume_group has_run has_node has_attempt record_run_started
    record_run_finished record_run_running record_run_errored record_run_parked insert_node
    record_node_started record_node_running record_node_finished record_node_skipped
    record_node_awaiting record_attempt record_run_group_membership run_group_membership run_status
    node_statuses node_causes node_output max_attempt index_list address_step address_sub_path
    rstrip_newlines read_field address_field equals_value contains_value compare_leaf evaluate_leaf
    evaluate_predicate succeeded status retryable normalized_output parked rejected run_succeeded
    run_result_status is_resumable check_decisions start_run decline approve_each seed decide
    resume_run py_eq field_at count_items item_at
verified_ok = refl

verified_status : (result_or verified).status ≡ GroupStatus.rejected
unfolding feedback_substitution set_field id_at inputs_at substitute_all substitute_node
    substitute_nodes ids_in missing_targets materialize_iteration_raw refs_must_target
    done_refs_must_target_evaluate_node verdict_refs_must_target_verify_node evaluate_node_output
    feedback_value next_feedback record_membership holds persist_group_state judge_done
    judge_verification run_iteration iteration_verdict drive_round drive_loop drive run_group
    continue resume_last resume_from resume_group has_run has_node has_attempt record_run_started
    record_run_finished record_run_running record_run_errored record_run_parked insert_node
    record_node_started record_node_running record_node_finished record_node_skipped
    record_node_awaiting record_attempt record_run_group_membership run_group_membership run_status
    node_statuses node_causes node_output max_attempt index_list address_step address_sub_path
    rstrip_newlines read_field address_field equals_value contains_value compare_leaf evaluate_leaf
    evaluate_predicate succeeded status retryable normalized_output parked rejected run_succeeded
    run_result_status is_resumable check_decisions start_run decline approve_each seed decide
    resume_run py_eq field_at count_items item_at
verified_status = refl

run_adversarial_verification-IsVerificationEnd_example :
    IsVerificationEnd verification_spec
      (world_or verified).dirs
      (result_or verified).status
      (result_or verified).iterations
    × HasRecord (world_or verified) (result_or verified).status (result_or verified).iterations
run_adversarial_verification-IsVerificationEnd_example =
    run_adversarial_verification-IsVerificationEnd (runner (Value.str "blue")) "group"
      verification_spec raw new_group (world_or verified) (result_or verified) verified_ok

-- One red round is recorded, and the loop was interrupted after it.
abbrev first_round : IterationResult
first_round = record { iteration_index = 0; run_id = "first"; succeeded = true }

abbrev after_one : World
after_one = record {
  dirs = ("first", store "first" RunStatus.succeeded (said green 0)) ∷ [];
  group = some (record {
    status = GroupStatus.running;
    iterations = record { iteration = first_round; promoted = none } ∷ [];
    winner = none;
  });
}

abbrev group_of : World → GroupState
group_of w = elim w.group [
  | some g ↦ g
  | none ↦ record { status = GroupStatus.running; iterations = []; winner = none }
]

abbrev went_on : Step
went_on = resume_group (runner green) "group" (loop_policy loop_spec) raw after_one

went_on_ok : went_on ≡ ok (result_or went_on, world_or went_on)
unfolding feedback_substitution set_field id_at inputs_at substitute_all substitute_node
    substitute_nodes ids_in missing_targets materialize_iteration_raw refs_must_target
    done_refs_must_target_evaluate_node verdict_refs_must_target_verify_node evaluate_node_output
    feedback_value next_feedback record_membership holds persist_group_state judge_done
    judge_verification run_iteration iteration_verdict drive_round drive_loop drive run_group
    continue resume_last resume_from resume_group has_run has_node has_attempt record_run_started
    record_run_finished record_run_running record_run_errored record_run_parked insert_node
    record_node_started record_node_running record_node_finished record_node_skipped
    record_node_awaiting record_attempt record_run_group_membership run_group_membership run_status
    node_statuses node_causes node_output max_attempt index_list address_step address_sub_path
    rstrip_newlines read_field address_field equals_value contains_value compare_leaf evaluate_leaf
    evaluate_predicate succeeded status retryable normalized_output parked rejected run_succeeded
    run_result_status is_resumable check_decisions start_run decline approve_each seed decide
    resume_run py_eq field_at count_items item_at
went_on_ok = refl

resume_group-IsKept_example :
    IsKept (runner green) after_one.dirs [] first_round (result_or went_on).iterations
resume_group-IsKept_example =
    resume_group-IsKept (runner green) "group" (loop_policy loop_spec) raw after_one
      (world_or went_on) (group_of after_one) [] first_round (result_or went_on) refl refl
      went_on_ok
