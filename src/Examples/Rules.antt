-- ===== src/Examples/Rules.antt =====
-- model.py, predicate.py and patterns.py: their theorems on small definitions.
use cli_agentic_workflow.Prelude.{
  ℤ, String, [], ◌∷◌, Option, none, some, true, false, ◌≡◌, refl, ◌↔◌, ok, pos, map, ◌==◌,
  if◌then◌else◌, negsuc,
}
use cli_agentic_workflow.Value.{Scalar, Value}
use cli_agentic_workflow.Model.Text.{
  env_name_match, is_name_start, is_name_char, is_blank, require_non_blank,
}
use cli_agentic_workflow.Model.Text.Names.{IsEnvName, append_newline, env_name_match-newline}
use cli_agentic_workflow.Model.Predicate.{
  PredicateField, PredicateOp, PredicateRef, Predicate, PredicateTuple, PredicateOption,
  check_predicate, check_ref, exactly_one_shape, present_shapes, value_type_admissible_for_field,
}
use cli_agentic_workflow.Model.Predicate.Fold.{fold, leaf_refs}
use cli_agentic_workflow.Model.Predicate.Shapes.{IsFormed, check_predicate_iff}
use cli_agentic_workflow.Evaluate.{
  Output, evaluate_predicate, decimal, str_of, str_of_scalar, contains_value,
}
use cli_agentic_workflow.Evaluate.Meaning.{Holds}
use cli_agentic_workflow.Evaluate.Total.{Decides, evaluate_predicate_decides}
use cli_agentic_workflow.Evaluate.Local.{evaluate_predicate_local}
use cli_agentic_workflow.Patterns.{
  DictKind, NodeDict, Pattern, check_params, expand, require_agent_kind, reject_declared_needs,
}
use cli_agentic_workflow.Patterns.Edges.{
  less_needs, authored, IsForward, expand-less_needs, expand-IsForward,
}

-- `not: {ref: build.exit_status, op: equals, value: 0}`
abbrev exit_ref : PredicateRef
exit_ref = record { node = "build"; field = PredicateField.exit_status; path = [] }

abbrev failed : Predicate
failed = Predicate.predicate none none none PredicateTuple.absent PredicateTuple.absent (
    PredicateOption.single (
      Predicate.predicate (some exit_ref) (some PredicateOp.equals) (some (Scalar.int (pos 0)))
        PredicateTuple.absent PredicateTuple.absent PredicateOption.missing))

abbrev exited : ℤ → Output
exited n = record {
  exit_status = some n;
  stdout = some "";
  stderr = some "";
  structured_output = none;
  artifacts = none;
  approved = none;
}

abbrev only_build : String → Option Output
only_build id = if id == "build" then some (exited (pos 1)) else none

abbrev all_alike : String → Option Output
all_alike id = some (exited (pos 1))

failed_checked : check_predicate failed ≡ ok tt
unfolding check_predicate check_ref exactly_one_shape present_shapes value_type_admissible_for_field
    require_non_blank is_blank
failed_checked = refl

failed_refs : leaf_refs failed ≡ some (exit_ref ∷ [])
unfolding leaf_refs fold
failed_refs = refl

check_predicate_iff_example : (check_predicate failed ≡ ok tt) ↔ IsFormed failed
check_predicate_iff_example = check_predicate_iff failed

evaluate_predicate_decides_example :
    Decides (evaluate_predicate only_build failed) (Holds only_build failed)
evaluate_predicate_decides_example = evaluate_predicate_decides only_build failed failed_checked

evaluate_predicate_local_example :
    evaluate_predicate only_build failed ≡ evaluate_predicate all_alike failed
evaluate_predicate_local_example =
    evaluate_predicate_local only_build all_alike failed (exit_ref ∷ []) failed_refs (refl, tt)

contains_of_ints :
    (contains_value (Value.int (pos 150)) (some (Scalar.int (pos 5))) ≡ some true)
    × (contains_value (Value.int (negsuc 14)) (some (Scalar.str "-15")) ≡ some true)
    × (contains_value Value.null (some (Scalar.bool true)) ≡ some false)
unfolding contains_value str_of str_of_scalar decimal
contains_of_ints = (refl, refl, refl)

ci_name : IsEnvName "CI"
unfolding is_name_start is_name_char
ci_name = (refl, (refl, tt))

env_name_match-newline_example :
    (env_name_match (append_newline "CI") ≡ true) × (¬ IsEnvName (append_newline "CI"))
env_name_match-newline_example = env_name_match-newline "CI" ci_name

abbrev worker : String → NodeDict
worker id = record {
  id = some id;
  kind = some DictKind.agent;
  needs = none;
  when = none;
  join = none;
  rest = [];
}

abbrev synthesis : Pattern
synthesis = Pattern.fan_out_synthesis (worker "a" ∷ worker "b" ∷ []) (worker "s")

synthesis_checked : check_params synthesis ≡ ok tt
unfolding check_params require_agent_kind reject_declared_needs
synthesis_checked = refl

expand-less_needs_example : map less_needs (expand synthesis) ≡ map less_needs (authored synthesis)
expand-less_needs_example = expand-less_needs synthesis

expand-IsForward_example : IsForward [] (expand synthesis)
expand-IsForward_example = expand-IsForward synthesis synthesis_checked
