-- ===== src/Executor/Outcome.antt =====
-- executor.py, lines 66-232: the result of a Node Attempt and of a Run.
use cli_agentic_workflow.Prelude.{
  ℕ, String, List, [], ◌∷◌, Option, none, some, Bool, true, false, not, ◌||◌, ℤ, every, is_some,
  Dict, if◌then◌else◌,
}
use cli_agentic_workflow.Status.{RunStatus, NodeStatus, FailureKind, kind_status}
use cli_agentic_workflow.Value.{Value}
use cli_agentic_workflow.Evaluate.{Output}
use cli_agentic_workflow.State.{SkipCause}

-- `structured_output` is `None` where the Attempt has none: that is a JSON null too.
pub record NodeResult : Type 0 where
  pub node_id : String
  pub exit_status : ℤ
  pub stdout : String
  pub stderr : String
  pub started_at : String
  pub finished_at : String
  pub structured_output : Value
  pub artifacts : List String
  pub failure_kind : Option FailureKind
  pub adapter : Option String
  pub attempt : ℕ

unfoldable pub succeeded : NodeResult → Bool
succeeded r = not (is_some r.failure_kind)

abbrev pub status_of_kind : Option FailureKind → NodeStatus
status_of_kind none = NodeStatus.succeeded
status_of_kind (some k) = kind_status k

unfoldable pub status : NodeResult → NodeStatus
status r = status_of_kind r.failure_kind

-- `_RETRYABLE_FAILURE_KINDS`
abbrev pub is_retryable_kind : Option FailureKind → Bool
is_retryable_kind (some FailureKind.failed) = true
is_retryable_kind (some FailureKind.timed_out) = true
is_retryable_kind _ = false

unfoldable pub retryable : NodeResult → Bool
retryable r = is_retryable_kind r.failure_kind

abbrev pub non_null : Value → Option Value
non_null Value.null = none
non_null v = some v

abbrev pub non_empty : List String → Option (List String)
non_empty [] = none
non_empty (x ∷ xs) = some (x ∷ xs)

unfoldable pub normalized_output : NodeResult → Output
normalized_output r = record {
  exit_status = some r.exit_status;
  stdout = some r.stdout;
  stderr = some r.stderr;
  structured_output = non_null r.structured_output;
  artifacts = non_empty r.artifacts;
  approved = none;
}

pub record RunResult : Type 0 where
  pub run_id : String
  pub node_results : List NodeResult
  pub skipped_node_ids : List String
  pub skipped_blockers : Dict String
  pub skipped_causes : Dict SkipCause
  pub awaiting_node_ids : List String
  pub rejected_node_ids : List String

abbrev pub is_nonempty : List String → Bool
is_nonempty [] = false
is_nonempty (x ∷ xs) = true

unfoldable pub parked : RunResult → Bool
parked r = is_nonempty r.awaiting_node_ids

unfoldable pub rejected : RunResult → Bool
rejected r = is_nonempty r.rejected_node_ids

unfoldable pub run_succeeded : RunResult → Bool
unfolding parked rejected succeeded
run_succeeded r = if parked r || rejected r then false else every succeeded r.node_results

unfoldable pub run_result_status : RunResult → RunStatus
unfolding parked rejected run_succeeded
run_result_status r =
    if rejected r
    then RunStatus.rejected
    else if parked r
    then RunStatus.parked
    else if run_succeeded r
    then RunStatus.succeeded
    else RunStatus.failed
