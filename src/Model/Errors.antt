-- ===== src/Model/Errors.antt =====
-- model.py: the config errors of the validators, one constructor for each `raise ValueError`.
use cli_agentic_workflow.Prelude.{String, List, Result}

pub data ConfigError : Type 0 where
  -- `_require_non_blank`
  blank : ConfigError
  -- `_unique_valid_env_names`
  invalid_env_name duplicate_env_name : String → ConfigError
  -- `PredicateRef`
  path_step_is_bool path_on_scalar_field : ConfigError
  -- `Predicate._exactly_one_shape`
  not_one_shape leaf_without_op op_on_combinator leaf_without_value : ConfigError
  value_never_matches empty_all_of empty_any_of contains_on_non_string : ConfigError
  -- `Node`
  duplicate_needs needs_itself : String → ConfigError
  when_not_in_needs : (id ref : String) → ConfigError
  gate_with_retries gate_with_timeout : String → ConfigError
  timeout_not_positive : ConfigError
  -- `AgentNodeInputs`
  unknown_adapter : String → ConfigError
  -- `Workflow`
  concurrency_below_one no_nodes : ConfigError
  duplicate_id : String → ConfigError
  unknown_need : (id ref : String) → ConfigError
  field_not_produced : (id ref : String) → ConfigError
  dependency_cycle : List String → ConfigError
  not_on_a_cycle : String → ConfigError
  unorderable : List String → ConfigError
  -- an assertion of `Predicate.fold` that fails
  assertion : ConfigError

abbrev pub Checked : Type 0 → Type 0
Checked A = Result ConfigError A
