-- ===== src/Agent/Mock/Fixtures.antt =====
-- adapter.py: a fixture that says a result, and its replay.
use cli_agentic_workflow.Prelude.{String, List, ◌∷◌, refl, some, ◌≡◌, arith, [], ok}
use cli_agentic_workflow.Value.{Value, Fields, Items, field_at}
use cli_agentic_workflow.Agent.Subprocess.{read_json_object}
use cli_agentic_workflow.Agent.Machine.{Read, Machine, Python, AgentInvocation, AgentResult}
use cli_agentic_workflow.Agent.Mock.{path_entries, parse_artifacts, replay_fields, mock_invoke}

abbrev pub strings : List String → Items
strings [] = Items.nil
strings (s ∷ rest) = Items.cons (Value.str s) (strings rest)

-- The JSON object that states every field of a result.
abbrev pub fixture_of : AgentResult → Fields
fixture_of r = Fields.field "exit_status" (Value.int r.exit_status) (
    Fields.field "stdout" (Value.str r.stdout) (
      Fields.field "stderr" (Value.str r.stderr) (
        Fields.field "structured_output" r.structured_output (
          Fields.field "artifacts" (Value.list (strings r.artifacts))
            (Fields.field "adapter_failure" (Value.bool r.adapter_failure) Fields.end)))))

path_entries-strings :
    (fixture node_id : String) (paths : List String)
    → path_entries fixture node_id (strings paths) ≡ ok paths
path_entries-strings fixture node_id [] = refl
path_entries-strings fixture node_id (s ∷ paths) =
    rw (path_entries-strings fixture node_id paths) refl

-- The mock adapter returns the result that its fixture states, if the file holds JSON that parses to
-- it and `str` of a text is that text.
pub mock_invoke-fixture_of :
    (m : Machine) (p : Python) (i : AgentInvocation) (fixture raw : String) (r : AgentResult)
    → i.fixture ≡ some fixture
    → m.read_text fixture ≡ Read.text raw
    → p.loads raw ≡ some (Value.dict (fixture_of r))
    → ((s : String) → p.str_of (Value.str s) ≡ s)
    → mock_invoke m p i ≡ ok r
unfolding mock_invoke replay_fields read_json_object parse_artifacts field_at
mock_invoke-fixture_of m p i fixture raw r f t l s =
    ground (arith, path_entries-strings fixture i.node_id r.artifacts, s r.stdout, s r.stderr)
