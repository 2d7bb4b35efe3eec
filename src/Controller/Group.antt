-- ===== src/Controller/Group.antt =====
-- controller.py: the specs, the results and the persisted state of a Run Group, and the reads and
-- writes of its run directories.
use cli_agentic_workflow.Prelude.{
  ℕ, String, List, [], ◌∷◌, Option, none, some, Bool, true, false, ◌==◌, Dict, get, put, map,
  Result, ok, raised, ◌>>=◌, if◌then◌else◌,
}
use cli_agentic_workflow.Value.{Value, Fields, field_at}
use cli_agentic_workflow.State.{StateStore, record_run_group_membership, node_output}
use cli_agentic_workflow.Model.Node.{Workflow}
use cli_agentic_workflow.Model.Predicate.{Predicate, PredicateRef}
use cli_agentic_workflow.Model.Predicate.Fold.{leaf_refs}
use cli_agentic_workflow.Evaluate.{Output, evaluate_predicate}
use cli_agentic_workflow.Executor.Outcome.{RunResult}
use cli_agentic_workflow.Controller.Materialize.{
  ControllerError, FeedbackSpec, missing_run_dir, assertion_error,
}

pub data GroupStatus : Type 0 where
  done exhausted failed running accepted rejected complete : GroupStatus

-- A spec names a workflow file; the model is given what the file holds beside it.
pub record ControllerSpec : Type 0 where
  pub max_iterations : ℕ
  pub evaluate_node : String
  pub done : Predicate
  pub feedback : Option FeedbackSpec

pub record AdversarialSpec : Type 0 where
  pub max_rounds : ℕ
  pub verify_node : String
  pub accept : Predicate
  pub reject : Option Predicate
  pub feedback : Option FeedbackSpec

pub record IterationResult : Type 0 where
  pub iteration_index : ℕ
  pub run_id : String
  pub succeeded : Bool

pub record GroupResult : Type 0 where
  pub status : GroupStatus
  pub iterations : List IterationResult
  pub winner : Option String

-- An entry of `iterations` in group.json; `promoted` is the tournament's key, there or not.
pub record GroupEntry : Type 0 where
  pub iteration : IterationResult
  pub promoted : Option (Option String)

-- group.json, less the spec, the group's id and the count of its iterations.
pub record GroupState : Type 0 where
  pub status : GroupStatus
  pub iterations : List GroupEntry
  pub winner : Option (Option String)

-- The group's directory: group.json, and the State of each run under `iterations`.
pub record World : Type 0 where
  pub dirs : Dict StateStore
  pub group : Option GroupState

-- What a Controller calls: `normalize_workflow`, and `execute_run` and `resume_run`, whose outcome
-- the Nodes' processes decide. They return a result, and the run directories as they leave them.
pub record Runner : Type 0 where
  pub normalize : Fields → Result ControllerError Workflow
  pub execute : Workflow → Dict StateStore → Result ControllerError (RunResult × Dict StateStore)
  pub resume : String → Dict StateStore → Result ControllerError (RunResult × Dict StateStore)

-- Every leaf of the verdict's predicate reads the node whose output it is given.
unfoldable pub refs_must_target : String → List PredicateRef → Bool
refs_must_target node [] = true
refs_must_target node (r ∷ refs) = if r.node == node then refs_must_target node refs else false

abbrev targets : String → Predicate → Bool
targets node p = elim (leaf_refs p) [ none ↦ false | some refs ↦ refs_must_target node refs ]

unfoldable pub done_refs_must_target_evaluate_node : ControllerSpec → Bool
unfolding refs_must_target
done_refs_must_target_evaluate_node spec = targets spec.evaluate_node spec.done

unfoldable pub verdict_refs_must_target_verify_node : AdversarialSpec → Bool
unfolding refs_must_target
verdict_refs_must_target_verify_node spec =
    if targets spec.verify_node spec.accept
    then elim spec.reject [ none ↦ true | some p ↦ targets spec.verify_node p ]
    else false

abbrev pub open_state : String → Dict StateStore → Result ControllerError StateStore
open_state run_id dirs = elim (get run_id dirs) [
  | none ↦ raised (missing_run_dir run_id)
  | some db ↦ ok db
]

-- `_evaluate_node_output`
unfoldable pub evaluate_node_output :
    Dict StateStore → String → String → Result ControllerError (Option Output)
evaluate_node_output dirs run_id node =
    open_state run_id dirs >>= λ db. ok (node_output run_id node db)

abbrev pub non_null : Option Value → Option Value
non_null (some Value.null) = none
non_null v = v

-- `_feedback_value`
unfoldable pub feedback_value : Option Output → String → Option Value
feedback_value none from_field = none
feedback_value (some o) from_field = elim o.structured_output [
  | some (Value.dict d) ↦ non_null (field_at from_field d)
  | _ ↦ none
]

-- `_next_feedback`, `_adversarial_feedback` and `_tournament_feedback`, which have one body.
unfoldable pub next_feedback :
    Option FeedbackSpec → String → Dict StateStore → String → Result ControllerError (Option Value)
unfolding evaluate_node_output feedback_value
next_feedback none node dirs run_id = ok none
next_feedback (some f) node dirs run_id =
    evaluate_node_output dirs run_id node >>= λ o. ok (feedback_value o f.from_field)

-- `_record_membership`
unfoldable pub record_membership :
    (group_id : String) → String → ℕ → Dict StateStore → Result ControllerError (Dict StateStore)
record_membership group_id run_id index dirs = open_state run_id dirs >>= λ db.
    ok (put run_id (record_run_group_membership run_id group_id index db) dirs)

-- `evaluate_predicate(p, output_of)`, where `output_of` knows the one node.
unfoldable pub holds : String → Option Output → Predicate → Result ControllerError Bool
unfolding evaluate_predicate
holds node output p = elim (evaluate_predicate (λ id. if id == node then output else none) p) [
  | none ↦ raised assertion_error
  | some b ↦ ok b
]

-- `_write_group_state` with no extra fields.
unfoldable pub persist_group_state : List IterationResult → GroupStatus → World → World
persist_group_state iterations status w = record w {
  group = some (record {
    status = status;
    iterations = map (λ it. record { iteration = it; promoted = none }) iterations;
    winner = none;
  });
}
