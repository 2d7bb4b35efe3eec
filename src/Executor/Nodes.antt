-- ===== src/Executor/Nodes.antt =====
-- executor.py, lines 270-531: how a Node's Attempt is run, and its NodeResult.
pub mod Env
pub mod Verdicts
pub mod Raises
pub mod Reported
use cli_agentic_workflow.Prelude.{
  ◌==◌, if◌then◌else◌, true, String, Result, pos, get, Bool, List, false, not, raised, Option, [],
  none, keep, some, put, Dict, ◌∷◌, eq_ℤ, ok, ◌>>=◌, ◌||◌, negsuc, ℤ,
}
use cli_agentic_workflow.Value.{Value}
use cli_agentic_workflow.Status.{FailureKind}
use cli_agentic_workflow.Model.Node.{ShellNodeInputs, AgentNodeInputs, Inputs, Node}
use cli_agentic_workflow.Executor.Outcome.{NodeResult}
use cli_agentic_workflow.Agent.Text.{strip, ◌<>◌}
use cli_agentic_workflow.Agent.Machine.{
  Ended, Machine, Raised, is_exception, Python, AgentInvocation, AgentResult, Adapter,
  timeout_error, runtime_error, file_not_found_error, cancelled_error, Conformance,
}
use cli_agentic_workflow.Agent.Registry.{resolve}

-- `{name: os.environ[name] for name in declared if name in os.environ}`
abbrev pub pick : Dict String → Dict String → List String → Dict String
pick environ env [] = env
pick environ env (name ∷ names) = elim (get name environ) [
  | none ↦ pick environ env names
  | some value ↦ pick environ (put name value env) names
]

unfoldable pub resolve_declared_env : Dict String → Option (List String) → Dict String
resolve_declared_env environ none = []
resolve_declared_env environ (some declared) = pick environ [] declared

unfoldable pub resolve_shell_env : Dict String → Option (List String) → Option (Dict String)
unfolding resolve_declared_env
resolve_shell_env environ none = none
resolve_shell_env environ (some declared) = some (resolve_declared_env environ (some declared))

-- The exit status -1, of a timeout.
abbrev pub minus_one : ℤ
minus_one = negsuc 0

-- `timeout` and the retry count do not reach the adapter: `contract` is `validate_output_contract`.
module _ (m : Machine) (p : Python) (adapters : Dict Adapter)
    (contract : String → Value → Conformance) where
  abbrev pub node_result :
      Node
      → (adapter : Option String) → ℤ
      → (stdout stderr : String) → Option FailureKind
      → NodeResult
  node_result n adapter exit_status stdout stderr kind = record {
    node_id = n.id;
    exit_status = exit_status;
    stdout = stdout;
    stderr = stderr;
    started_at = m.now;
    finished_at = m.now;
    structured_output = Value.null;
    artifacts = [];
    failure_kind = kind;
    adapter = adapter;
    attempt = 1;
  }

  abbrev pub timeout_tail : Node → String
  timeout_tail n = " exceeded its timeout of " <> p.timeout_text n.timeout <> "s"

  -- `process.returncode if process.returncode is not None else -1`
  abbrev pub returncode_or : Option ℤ → ℤ
  returncode_or none = minus_one
  returncode_or (some z) = z

  unfoldable pub execute_shell_node : Node → ShellNodeInputs → Result Raised NodeResult
  unfolding resolve_shell_env
  execute_shell_node n i = elim (m.shell i.command (resolve_shell_env m.environ i.env)) [
    | Ended.timed_out ↦ ok (
        node_result n none minus_one "" ("node " <> p.repr_of n.id <> timeout_tail n)
          (some FailureKind.timed_out))
    | Ended.cancelled ↦ raised cancelled_error
    | Ended.interrupted e ↦ raised e
    | Ended.not_found ↦ raised file_not_found_error
    | Ended.completed returncode stdout stderr ↦
        let exit_status = returncode_or returncode in
        ok (
          node_result n none exit_status stdout stderr
            (if eq_ℤ exit_status (pos 0) then none else some FailureKind.failed))
  ]

  unfoldable pub existing_artifacts : List String → List String
  existing_artifacts = keep m.is_file

  unfoldable pub invocation_of : Node → AgentNodeInputs → AgentInvocation
  unfolding resolve_declared_env
  invocation_of n i = record {
    node_id = n.id;
    adapter = i.adapter;
    prompt = i.prompt;
    args = i.args;
    env = resolve_declared_env m.environ i.env;
    output_schema = i.output_schema;
    fixture = i.fixture;
  }

  -- `exit_status != 0 or result.adapter_failure`
  unfoldable pub agent_failed : AgentResult → Bool
  agent_failed r = not (eq_ℤ r.exit_status (pos 0)) || r.adapter_failure

  abbrev pub verdict_on : AgentNodeInputs → AgentResult → Conformance
  verdict_on i r = elim (agent_failed r) [
    | true ↦ Conformance.conforms
    | false ↦ elim i.output_schema [
      | none ↦ Conformance.conforms
      | some path ↦ contract path r.structured_output
    ]
  ]

  -- `f"{stderr}\n{exc}".strip() if stderr else str(exc)`
  abbrev pub breach_text : (stderr message : String) → String
  breach_text stderr message = if stderr == "" then message else strip (stderr <> "\n" <> message)

  abbrev pub agent_node_result :
      Node → AgentNodeInputs → AgentResult → ℤ → (stderr : String) → (failed : Bool) → NodeResult
  agent_node_result n i r exit_status stderr failed =
      record (node_result n (some i.adapter) exit_status r.stdout stderr
        (if failed then some FailureKind.failed else none)) {
          structured_output = r.structured_output;
          artifacts = existing_artifacts r.artifacts;
        }

  abbrev pub judged : Node → AgentNodeInputs → AgentResult → Conformance → Result Raised NodeResult
  judged n i r Conformance.conforms =
      ok (agent_node_result n i r r.exit_status r.stderr (agent_failed r))
  judged n i r (Conformance.breached message) =
      ok (agent_node_result n i r (pos 1) (breach_text r.stderr message) true)
  judged n i r (Conformance.raises e) = raised e

  abbrev pub on_invoked :
      Node → AgentNodeInputs → Result Raised AgentResult → Result Raised NodeResult
  on_invoked n i (ok r) = judged n i r (verdict_on i r)
  on_invoked n i (raised timeout_error) = ok (
      node_result n (some i.adapter) minus_one ""
        ("node " <> p.repr_of n.id <> " (adapter " <> p.repr_of i.adapter <> ")" <> timeout_tail n)
        (some FailureKind.timed_out))
  on_invoked n i (raised e) = raised e

  unfoldable pub execute_agent_node : Node → AgentNodeInputs → Result Raised NodeResult
  unfolding resolve invocation_of existing_artifacts agent_failed strip
  execute_agent_node n i =
      resolve adapters i.adapter >>= λ adapter. on_invoked n i (adapter (invocation_of n i))

  -- `f"{type(exc).__name__}: {exc}" if str(exc) else type(exc).__name__`
  abbrev pub cause_of : Raised → String
  cause_of e = if p.message e == "" then p.type_name e else p.type_name e <> ": " <> p.message e

  -- `except Exception`
  abbrev pub caught : Node → AgentNodeInputs → Result Raised NodeResult → Result Raised NodeResult
  caught n i (ok r) = ok r
  caught n i (raised e) =
      if is_exception e
      then ok (node_result n (some i.adapter) (pos 1) "" (cause_of e) (some FailureKind.errored))
      else raised e

  unfoldable pub execute_node : Node → Result Raised NodeResult
  unfolding execute_shell_node execute_agent_node
  execute_node n = elim n.inputs [
    | Inputs.shell i ↦ execute_shell_node n i
    | Inputs.human_gate i ↦ raised runtime_error
    | Inputs.agent i ↦ caught n i (execute_agent_node n i)
  ]
