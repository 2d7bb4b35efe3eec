-- ===== src/Examples/Attempts.antt =====
-- executor.py and the adapters: Attempts of a shell Node and of an agent Node, and the theorems on them.
use cli_agentic_workflow.Prelude.{
  String, ok, exists_in, get, false, Option, true, ℤ, All, [], ◌↔◌, not, raised, some, ◌∷◌, Result,
  ◌≡◌, refl, ◌≢◌, if◌then◌else◌, pos, ◌==◌, none,
}
use cli_agentic_workflow.Value.{Value, Fields, py_eq, field_at, count_items, item_at}
use cli_agentic_workflow.Status.{FailureKind}
use cli_agentic_workflow.Model.Node.{AgentNodeInputs, Inputs, Join, Node}
use cli_agentic_workflow.Model.Text.{
  is_space, is_blank, require_non_blank, is_name_start, is_name_char, matches_rest, env_name_match,
  check_env_names, unique_valid_env_names,
}
use cli_agentic_workflow.Executor.Outcome.{NodeResult, succeeded, retryable}
use cli_agentic_workflow.Executor.Nodes.{
  resolve_declared_env, resolve_shell_env, execute_shell_node, existing_artifacts, invocation_of,
  agent_failed, execute_agent_node, execute_node,
}
use cli_agentic_workflow.Executor.Nodes.Env.{allowed, resolve_env-allowed}
use cli_agentic_workflow.Executor.Nodes.Reported.{execute_node-Backed, execute_node-adapter_failure}
use cli_agentic_workflow.Executor.Nodes.Verdicts.{IsSuccess, execute_node-succeeded_iff}
use cli_agentic_workflow.Executor.Nodes.Raises.{ComesTo, IsBaseException, execute_node-raised}
use cli_agentic_workflow.Agent.Codex.{
  turn_failure, message_of, final_message, final_agent_message, parse_events, codex_argv,
  annotate_codex_error, parse_structured_message, codex_normalize, codex_invoke,
}
use cli_agentic_workflow.Agent.Subprocess.{
  SubprocessAdapter, CompletedSubprocess, node_context, parse_json_object, read_json_object,
  resolve_cli_path, run_cli, capability_check, annotated,
}
use cli_agentic_workflow.Agent.Text.{lstrip, rstrip, strip, split_lines, splitlines, ◌<>◌}
use cli_agentic_workflow.Agent.Claude.{
  read_schema, claude_flags, claude_argv, annotate_claude_error, claude_normalize, claude_invoke,
}
use cli_agentic_workflow.Agent.Machine.{
  Ended, Read, Machine, Raised, Conformance, Python, AgentInvocation, AgentResult, timeout_error,
  keyboard_interrupt, Adapter,
}
use cli_agentic_workflow.Agent.Events.{reports_failure, turn_failure-reports}
use cli_agentic_workflow.Agent.Registry.{fresh_adapter, default_adapters, registry, resolve}
use cli_agentic_workflow.Agent.Results.{IsHonest, normalize-IsHonest}
use cli_agentic_workflow.Agent.Mock.{parse_artifacts, replay_fields, mock_invoke}
use cli_agentic_workflow.Agent.Mock.Fixtures.{fixture_of, mock_invoke-fixture_of}

-- A machine with one file, on which every process prints `out` and exits with `code`.
abbrev machine : ℤ → String → Machine
machine code out = record {
  environ = ("HOME", "/root") ∷ ("TOKEN", "secret") ∷ [];
  which = λ cli. some ("/bin/" <> cli);
  exec = λ argv env. Ended.completed (some code) out "";
  shell = λ command env. Ended.completed (some code) out "";
  read_text = λ path. Read.text "{}";
  is_file = λ path. path == "report.txt";
  now = "now";
}

abbrev said : Fields → Value
said d = Value.dict d

abbrev ok_wrapper : Fields
ok_wrapper =
    Fields.field "is_error" (Value.bool false)
      (Fields.field "structured_output" (Value.str "done") Fields.end)

abbrev error_wrapper : Fields
error_wrapper =
    Fields.field "is_error" (Value.bool true)
      (Fields.field "subtype" (Value.str "error_max_turns") Fields.end)

abbrev failed_event : Fields
failed_event = Fields.field "type" (Value.str "turn.failed") Fields.end

abbrev said_fixture : AgentResult
said_fixture = record {
  exit_status = pos 0;
  stdout = "hi";
  stderr = "";
  structured_output = Value.bool true;
  artifacts = "report.txt" ∷ "gone.txt" ∷ [];
  adapter_failure = true;
}

-- The JSON texts that stand in the examples.
abbrev loaded : String → Option Value
loaded s =
    if s == "ok"
    then some (said ok_wrapper)
    else if s == "error"
    then some (said error_wrapper)
    else if s == "failed"
    then some (said failed_event)
    else if s == "{}"
    then some (said (fixture_of said_fixture))
    else none

abbrev str_of : Value → String
str_of (Value.str s) = s
str_of v = "?"

abbrev python : Python
python = record {
  loads = loaded;
  str_of = str_of;
  repr_of = λ s. "'" <> s <> "'";
  timeout_text = λ t. "None";
  type_name = λ e. "Exception";
  message = λ e. "";
}

abbrev lenient : String → Value → Conformance
lenient path v = Conformance.conforms

abbrev agent_inputs : String → Option String → AgentNodeInputs
agent_inputs adapter schema = record {
  adapter = adapter;
  prompt = "--help";
  args = "--fast" ∷ [];
  env = some ("TOKEN" ∷ "MISSING" ∷ []);
  output_schema = schema;
  fixture = some "fixture.json";
}

abbrev node_of : Inputs → Node
node_of inputs = record {
  id = "work";
  inputs = inputs;
  needs = [];
  when = none;
  join = Join.all;
  retries = 0;
  timeout = none;
}

abbrev agent_node : String → Node
agent_node adapter = node_of (Inputs.agent (agent_inputs adapter (some "schema.json")))

abbrev executed : Machine → Node → Result Raised NodeResult
executed m n = execute_node m python (registry m python none) lenient n

abbrev blank_result : NodeResult
blank_result = record {
  node_id = "";
  exit_status = pos 7;
  stdout = "";
  stderr = "";
  started_at = "";
  finished_at = "";
  structured_output = Value.null;
  artifacts = [];
  failure_kind = none;
  adapter = none;
  attempt = 0;
}

abbrev node_result_or : Result Raised NodeResult → NodeResult
node_result_or (ok r) = r
node_result_or (raised e) = blank_result

abbrev claude_run : Result Raised NodeResult
claude_run = executed (machine (pos 0) "ok") (agent_node "claude.print")

claude_ran : claude_run ≡ ok (node_result_or claude_run)
unfolding resolve_declared_env resolve_shell_env execute_shell_node existing_artifacts invocation_of
    agent_failed execute_agent_node execute_node default_adapters registry resolve parse_artifacts
    replay_fields mock_invoke read_schema claude_flags claude_argv annotate_claude_error
    claude_normalize claude_invoke turn_failure message_of final_message final_agent_message
    parse_events codex_argv annotate_codex_error parse_structured_message codex_normalize
    codex_invoke node_context parse_json_object read_json_object resolve_cli_path run_cli
    capability_check annotated lstrip rstrip strip split_lines splitlines is_space is_blank
    require_non_blank is_name_start is_name_char matches_rest env_name_match check_env_names
    unique_valid_env_names py_eq field_at count_items item_at
claude_ran = refl

claude_output : (node_result_or claude_run).structured_output ≡ Value.str "done"
unfolding resolve_declared_env resolve_shell_env execute_shell_node existing_artifacts invocation_of
    agent_failed execute_agent_node execute_node default_adapters registry resolve parse_artifacts
    replay_fields mock_invoke read_schema claude_flags claude_argv annotate_claude_error
    claude_normalize claude_invoke turn_failure message_of final_message final_agent_message
    parse_events codex_argv annotate_codex_error parse_structured_message codex_normalize
    codex_invoke node_context parse_json_object read_json_object resolve_cli_path run_cli
    capability_check annotated lstrip rstrip strip split_lines splitlines is_space is_blank
    require_non_blank is_name_start is_name_char matches_rest env_name_match check_env_names
    unique_valid_env_names py_eq field_at count_items item_at
claude_output = refl

execute_node-succeeded_iff_example :
    (succeeded (node_result_or claude_run) ≡ true)
    ↔ IsSuccess
        (machine (pos 0) "ok")
        python
        (registry (machine (pos 0) "ok") python none)
        lenient
        (agent_node "claude.print")
execute_node-succeeded_iff_example =
    execute_node-succeeded_iff (machine (pos 0) "ok") python
      (registry (machine (pos 0) "ok") python none) lenient (agent_node "claude.print")
      (node_result_or claude_run) claude_ran

abbrev mock_run : Result Raised NodeResult
mock_run = executed (machine (pos 0) "ok") (agent_node "mock")

mock_ran : mock_run ≡ ok (node_result_or mock_run)
unfolding resolve_declared_env resolve_shell_env execute_shell_node existing_artifacts invocation_of
    agent_failed execute_agent_node execute_node default_adapters registry resolve parse_artifacts
    replay_fields mock_invoke read_schema claude_flags claude_argv annotate_claude_error
    claude_normalize claude_invoke turn_failure message_of final_message final_agent_message
    parse_events codex_argv annotate_codex_error parse_structured_message codex_normalize
    codex_invoke node_context parse_json_object read_json_object resolve_cli_path run_cli
    capability_check annotated lstrip rstrip strip split_lines splitlines is_space is_blank
    require_non_blank is_name_start is_name_char matches_rest env_name_match check_env_names
    unique_valid_env_names py_eq field_at count_items item_at
mock_ran = refl

execute_node-Backed_example :
    (succeeded (node_result_or mock_run) ≡ true → (node_result_or mock_run).exit_status ≡ pos 0)
    × All (λ a. (machine (pos 0) "ok").is_file a ≡ true) (node_result_or mock_run).artifacts
execute_node-Backed_example =
    execute_node-Backed (machine (pos 0) "ok") python (registry (machine (pos 0) "ok") python none)
      lenient (agent_node "mock") (node_result_or mock_run) mock_ran

mock_replayed :
    mock_invoke (machine (pos 0) "ok") python (
      invocation_of
        (machine (pos 0) "ok")
        python
        (("mock", mock_invoke (machine (pos 0) "ok") python) ∷ [])
        lenient
        (agent_node "mock")
        (agent_inputs "mock" (some "schema.json")))
    ≡ ok said_fixture
unfolding resolve_declared_env resolve_shell_env execute_shell_node existing_artifacts invocation_of
    agent_failed execute_agent_node execute_node parse_artifacts replay_fields mock_invoke
    node_context parse_json_object read_json_object resolve_cli_path run_cli capability_check
    annotated py_eq field_at count_items item_at
mock_replayed = refl

abbrev mock_executed : Result Raised NodeResult
mock_executed =
    execute_node (machine (pos 0) "ok") python
      (("mock", mock_invoke (machine (pos 0) "ok") python) ∷ []) lenient (agent_node "mock")

execute_node-adapter_failure_example :
    (r : NodeResult) × (mock_executed ≡ ok r)
    × (r.node_id ≡ (agent_node "mock").id)
    × (r.adapter ≡ some "mock")
    × (r.failure_kind ≡ some FailureKind.failed)
    × (retryable r ≡ true)
    × (r.exit_status ≡ pos 0)
    × (r.stdout ≡ "hi")
    × (r.stderr ≡ "")
    × (r.structured_output ≡ Value.bool true)
execute_node-adapter_failure_example =
    execute_node-adapter_failure (machine (pos 0) "ok") python
      (("mock", mock_invoke (machine (pos 0) "ok") python) ∷ []) lenient (agent_node "mock")
      (agent_inputs "mock" (some "schema.json")) (mock_invoke (machine (pos 0) "ok") python)
      said_fixture refl refl mock_replayed refl

-- An adapter that is interrupted, or whose CLI times out.
abbrev raising : Raised → Adapter
raising e = λ invocation. raised e

execute_node-raised_example :
    ((e : Raised)
      → raising timeout_error (
          invocation_of
            (machine (pos 0) "ok")
            python
            (("mock", raising timeout_error) ∷ [])
            lenient
            (agent_node "mock")
            (agent_inputs "mock" (some "schema.json")))
        ≡ raised e
      → ComesTo (agent_node "mock") e (
          execute_node
            (machine (pos 0) "ok")
            python
            (("mock", raising timeout_error) ∷ [])
            lenient
            (agent_node "mock")))
    × ((e : Raised)
        → execute_node
            (machine (pos 0) "ok")
            python
            (("mock", raising timeout_error) ∷ [])
            lenient
            (agent_node "mock")
          ≡ raised e
        → IsBaseException e)
execute_node-raised_example =
    execute_node-raised (machine (pos 0) "ok") python (("mock", raising timeout_error) ∷ []) lenient
      (agent_node "mock") (agent_inputs "mock" (some "schema.json")) (raising timeout_error) refl
      refl

timed_out :
    (r : NodeResult) × (execute_node
        (machine (pos 0) "ok")
        python
        (("mock", raising timeout_error) ∷ [])
        lenient
        (agent_node "mock")
      ≡ ok r)
    × (r.failure_kind ≡ some FailureKind.timed_out)
unfolding execute_node execute_agent_node resolve
timed_out = (_, refl, refl)

interrupted :
    execute_node
      (machine (pos 0) "ok")
      python
      (("mock", raising keyboard_interrupt) ∷ [])
      lenient
      (agent_node "mock")
    ≡ raised keyboard_interrupt
unfolding execute_node execute_agent_node resolve
interrupted = refl

resolve_env-allowed_example :
    (get "TOKEN" (resolve_declared_env (("TOKEN", "secret") ∷ []) (some ("TOKEN" ∷ "NO" ∷ [])))
      ≡ allowed (("TOKEN", "secret") ∷ []) ("TOKEN" ∷ "NO" ∷ []) "TOKEN")
    × (resolve_shell_env (("TOKEN", "secret") ∷ []) (some ("TOKEN" ∷ "NO" ∷ []))
        ≡ some (resolve_declared_env (("TOKEN", "secret") ∷ []) (some ("TOKEN" ∷ "NO" ∷ []))))
    × (resolve_declared_env (("TOKEN", "secret") ∷ []) none ≡ [])
    × (resolve_shell_env (("TOKEN", "secret") ∷ []) none ≡ none)
resolve_env-allowed_example =
    resolve_env-allowed (("TOKEN", "secret") ∷ []) ("TOKEN" ∷ "NO" ∷ []) "TOKEN"

abbrev invocation : AgentInvocation
invocation = record {
  node_id = "work";
  adapter = "codex.exec";
  prompt = "go";
  args = [];
  env = [];
  output_schema = some "schema.json";
  fixture = some "fixture.json";
}

abbrev ended_with : ℤ → String → CompletedSubprocess
ended_with code out = record { returncode = code; stdout = out; stderr = "" }

normalize-IsHonest_example :
    ((r : AgentResult)
      → claude_normalize (machine (pos 0) "ok") python invocation (ended_with (pos 0) "error")
        ≡ ok r
      → IsHonest (pos 0) r)
    × ((r : AgentResult)
        → codex_normalize (machine (pos 0) "ok") python invocation (ended_with (pos 0) "error")
          ≡ ok r
        → IsHonest (pos 0) r)
    × (pos 0 ≢ pos 0
        → claude_normalize (machine (pos 0) "ok") python invocation (ended_with (pos 0) "error")
          ≡ codex_normalize (machine (pos 0) "ok") python invocation (ended_with (pos 0) "error"))
normalize-IsHonest_example =
    normalize-IsHonest (machine (pos 0) "ok") python invocation (ended_with (pos 0) "error")

turn_failure-reports_example :
    (turn_failure (failed_event ∷ []) == "") ≡ not (exists_in reports_failure (failed_event ∷ []))
turn_failure-reports_example = turn_failure-reports (failed_event ∷ [])

abbrev located : SubprocessAdapter
located = record { cli_name = "codex"; resolved_cli = some "/bin/codex" }

codex_located :
    resolve_cli_path (machine (pos 0) "ok") python (fresh_adapter "codex") "node"
    ≡ (located, ok "/bin/codex")
unfolding resolve_cli_path
codex_located = refl

mock_invoke-fixture_of_example :
    mock_invoke (machine (pos 0) "ok") python invocation ≡ ok said_fixture
mock_invoke-fixture_of_example =
    mock_invoke-fixture_of (machine (pos 0) "ok") python invocation "fixture.json" "{}" said_fixture
      refl refl refl (λ s. refl)
