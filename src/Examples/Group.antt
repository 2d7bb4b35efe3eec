-- ===== src/Examples/Group.antt =====
-- controller.py: a runner whose Runs all succeed, and specs of each Controller over it.
use cli_agentic_workflow.Controller.Drive.{Step, group_result}
use cli_agentic_workflow.Prelude.{
  pos, put, ℕ, ◌∷◌, [], some, length, if◌then◌else◌, ok, String, none, raised, eqb,
}
use cli_agentic_workflow.Value.{Value, Fields, Items, Scalar}
use cli_agentic_workflow.State.{StateStore}
use cli_agentic_workflow.Status.{RunStatus, NodeStatus}
use cli_agentic_workflow.Evaluate.{Output}
use cli_agentic_workflow.Controller.Tournament.{TournamentSpec}
use cli_agentic_workflow.Controller.Materialize.{FeedbackSpec}
use cli_agentic_workflow.Controller.Group.{
  GroupStatus, ControllerSpec, AdversarialSpec, GroupResult, World, Runner,
}
use cli_agentic_workflow.Model.Node.{Inputs, Join, Node, Workflow}
use cli_agentic_workflow.Model.Predicate.{
  PredicateField, PredicateOp, PathStep, Predicate, PredicateTuple, PredicateOption,
}
use cli_agentic_workflow.Executor.Outcome.{RunResult}

abbrev pub output_of : Value → Output
output_of v = record {
  exit_status = some (pos 0);
  stdout = some "";
  stderr = some "";
  structured_output = some v;
  artifacts = none;
  approved = none;
}

abbrev pub check_node : Node
check_node = record {
  id = "check";
  inputs = Inputs.shell (record { command = "true"; env = none });
  needs = [];
  when = none;
  join = Join.all;
  retries = 0;
  timeout = none;
}

abbrev pub workflow : Workflow
workflow = record { name = "check"; version = pos 1; nodes = check_node ∷ []; concurrency = 4 }

-- `check` says "red" in the first round, and `second` in the later ones.
abbrev pub said : Value → ℕ → Value
said second n =
    Value.dict (Fields.field "winner" (if eqb n 0 then Value.str "red" else second) Fields.end)

abbrev pub store : String → RunStatus → Value → StateStore
store run_id t v = record {
  runs =
      record {
        run_id = run_id;
        workflow_name = "check";
        definition_checksum = "sum";
        status = t;
        created_at = "now";
        finished_at = none;
        error = none;
      }
      ∷ [];
  nodes =
      record { run_id = run_id; node_id = "check"; status = NodeStatus.succeeded; cause = none }
      ∷ [];
  attempts =
      record {
        run_id = run_id;
        node_id = "check";
        attempt = 1;
        started_at = "now";
        finished_at = "now";
        exit_status = pos 0;
        output = output_of v;
      }
      ∷ [];
  memberships = [];
}

abbrev pub result_of : String → RunResult
result_of run_id = record {
  run_id = run_id;
  node_results = [];
  skipped_node_ids = [];
  skipped_blockers = [];
  skipped_causes = [];
  awaiting_node_ids = [];
  rejected_node_ids = [];
}

abbrev pub name_of : ℕ → String
name_of n = if eqb n 0 then "first" else "second"

abbrev pub runner : Value → Runner
runner second = record {
  normalize = λ raw. ok workflow;
  execute = λ w dirs.
      let id = name_of (length dirs) in
      ok (result_of id, put id (store id RunStatus.succeeded (said second (length dirs))) dirs);
  resume = λ run_id dirs.
      ok (result_of run_id, put run_id (store run_id RunStatus.succeeded (said second 1)) dirs);
}

abbrev pub new_group : World
new_group = record { dirs = []; group = none }

abbrev pub raw : Fields
raw =
    Fields.field "nodes"
      (Value.list
        (Items.cons (Value.dict (Fields.field "id" (Value.str "check") Fields.end)) Items.nil))
      Fields.end

abbrev pub fed_back : FeedbackSpec
fed_back = record { to_node = "check"; to_field = "last"; from_field = "winner" }

abbrev pub is_green : Predicate
is_green =
    Predicate.predicate
      (some (record {
        node = "check";
        field = PredicateField.structured_output;
        path = PathStep.key "winner" ∷ [];
      }))
      (some PredicateOp.equals) (some (Scalar.str "green")) PredicateTuple.absent
      PredicateTuple.absent PredicateOption.missing

abbrev pub loop_spec : ControllerSpec
loop_spec = record {
  max_iterations = 3;
  evaluate_node = "check";
  done = is_green;
  feedback = some fed_back;
}

abbrev pub verification_spec : AdversarialSpec
verification_spec = record {
  max_rounds = 3;
  verify_node = "check";
  accept = is_green;
  reject = none;
  feedback = some fed_back;
}

abbrev pub tournament_spec : TournamentSpec
tournament_spec = record {
  rounds = 2;
  compare_node = "check";
  winner_field = "winner";
  promote = some (record { to_node = "check"; to_field = "seed" });
  feedback = some fed_back;
}

abbrev pub green : Value
green = Value.str "green"

abbrev pub text_of : Value → String
text_of (Value.str s) = s
text_of v = "?"

abbrev pub world_or : Step → World
world_or (ok (g, w)) = w
world_or (raised e) = new_group

abbrev pub result_or : Step → GroupResult
result_or (ok (g, w)) = g
result_or (raised e) = group_result GroupStatus.running []
