-- ===== src/Agent/Mock.antt =====
-- adapter.py: the adapter that replays a fixture.
pub mod Fixtures
use cli_agentic_workflow.Prelude.{
  ◌>>=◌, none, [], ◌∷◌, Result, some, List, ℤ, ok, false, Bool, String, Option,
}
use cli_agentic_workflow.Value.{Value, Fields, Items, field_at}
use cli_agentic_workflow.Agent.Subprocess.{fail, node_context, read_json_object}
use cli_agentic_workflow.Agent.Machine.{Machine, AdapterError, Raised, Python, AgentResult, Adapter}

abbrev pub path_entries : (fixture node_id : String) → Items → Result Raised (List String)
path_entries fixture node_id Items.nil = ok []
path_entries fixture node_id (Items.cons (Value.str s) rest) =
    path_entries fixture node_id rest >>= λ paths. ok (s ∷ paths)
path_entries fixture node_id (Items.cons v rest) =
    fail (AdapterError.malformed_artifact fixture node_id)

-- `_parse_artifacts(raw.get("artifacts", ()), …)`
unfoldable pub parse_artifacts :
    Option Value → (fixture node_id : String) → Result Raised (List String)
parse_artifacts none fixture node_id = ok []
parse_artifacts (some (Value.list xs)) fixture node_id = path_entries fixture node_id xs
parse_artifacts (some v) fixture node_id = fail (AdapterError.malformed_artifacts fixture node_id)

-- An `exit_status` that is an int, and no bool.
abbrev pub exit_status_of : Option Value → (fixture node_id : String) → Result Raised ℤ
exit_status_of (some (Value.int z)) fixture node_id = ok z
exit_status_of v fixture node_id = fail (AdapterError.no_exit_status fixture node_id)

abbrev pub adapter_failure_of : Option Value → (fixture node_id : String) → Result Raised Bool
adapter_failure_of none fixture node_id = ok false
adapter_failure_of (some (Value.bool b)) fixture node_id = ok b
adapter_failure_of (some v) fixture node_id = fail (AdapterError.no_flag fixture node_id)

module _ (m : Machine) (p : Python) where
  abbrev pub text_at : String → Fields → String
  text_at key raw = elim (field_at key raw) [ none ↦ "" | some v ↦ p.str_of v ]

  abbrev pub value_at : String → Fields → Value
  value_at key raw = elim (field_at key raw) [ none ↦ Value.null | some v ↦ v ]

  unfoldable pub replay_fields : (fixture node_id : String) → Fields → Result Raised AgentResult
  unfolding parse_artifacts field_at
  replay_fields fixture node_id raw =
      exit_status_of (field_at "exit_status" raw) fixture node_id >>= λ exit_status.
      parse_artifacts (field_at "artifacts" raw) fixture node_id >>= λ artifacts.
      adapter_failure_of (field_at "adapter_failure" raw) fixture node_id >>= λ adapter_failure.
      ok (record {
        exit_status = exit_status;
        stdout = text_at "stdout" raw;
        stderr = text_at "stderr" raw;
        structured_output = value_at "structured_output" raw;
        artifacts = artifacts;
        adapter_failure = adapter_failure;
      })

  -- `MockAdapter.invoke`, with `_replay`.
  unfoldable pub mock_invoke : Adapter
  unfolding read_json_object replay_fields node_context
  mock_invoke i = elim i.fixture [
    | none ↦ fail (AdapterError.requires_fixture i.node_id)
    | some fixture ↦
        read_json_object m p fixture (node_context m p i) "fixture"
        >>= replay_fields fixture i.node_id
  ]
