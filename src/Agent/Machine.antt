-- ===== src/Agent/Machine.antt =====
-- What the adapters and the executor are given by the machine and by Python's library: the parent
-- environment, the processes that they spawn, the files that they read, JSON and the text of values.
use cli_agentic_workflow.Prelude.{Dict, false, true, ℤ, Bool, [], Option, List, Result, String}
use cli_agentic_workflow.Value.{Float, Value}

-- `Path.read_text(encoding="utf-8")`
pub data Read : Type 0 where
  text : String → Read
  os_error undecodable : Read

-- `AdapterError`, a constructor for each message, with what the message names.
pub data AdapterError : Type 0 where
  missing_cli : (context cli : String) → AdapterError
  unparseable_stdout not_an_object : (context source : String) → AdapterError
  unreadable invalid_json no_json_object : (context source path : String) → AdapterError
  unreadable_schema : (context path : String) → AdapterError
  no_structured_output no_agent_message unparseable_message : (context : String) → AdapterError
  requires_fixture : (node_id : String) → AdapterError
  no_exit_status no_flag malformed_artifacts malformed_artifact :
      (fixture node_id : String) → AdapterError
  unknown_adapter : String → AdapterError
  version_failed : (cli : String) (returncode : ℤ) (stderr : String) → AdapterError

-- What is raised, a constructor for each class. The last three are no `Exception`, but a
-- `BaseException` each.
pub data Raised : Type 0 where
  adapter_error : AdapterError → Raised
  unicode_decode_error assertion_error timeout_error runtime_error file_not_found_error
        permission_error os_error value_error type_error key_error :
      Raised
  cancelled_error keyboard_interrupt system_exit : Raised

-- How a spawned process ends for the one who awaits it: with its return code and its output, decoded;
-- FileNotFoundError at the spawn; TimeoutError or CancelledError while it runs, upon which its process
-- group is killed; or whatever else is raised, as an OSError at the spawn or a KeyboardInterrupt.
pub data Ended : Type 0 where
  completed : (returncode : Option ℤ) (stdout stderr : String) → Ended
  not_found timed_out cancelled : Ended
  interrupted : Raised → Ended

pub record Machine : Type 0 where
  pub environ : Dict String
  pub which : String → Option String
  -- An argv and an environment; with none the child inherits.
  pub exec : List String → Option (Dict String) → Ended
  pub shell : String → Option (Dict String) → Ended
  pub read_text : String → Read
  pub is_file : String → Bool
  pub now : String

-- What the check of an Output Contract comes to: an OutputContractError, with its message, or what
-- else it raises.
pub data Conformance : Type 0 where
  conforms : Conformance
  breached : (message : String) → Conformance
  raises : Raised → Conformance

-- `isinstance(exc, Exception)`
abbrev pub is_exception : Raised → Bool
is_exception cancelled_error = false
is_exception keyboard_interrupt = false
is_exception system_exit = false
is_exception _ = true

pub record Python : Type 0 where
  -- `json.loads`; a JSONDecodeError is none.
  pub loads : String → Option Value
  -- `str` and `repr`
  pub str_of : Value → String
  pub repr_of : String → String
  pub timeout_text : Option Float → String
  -- `type(exc).__name__` and `str(exc)`
  pub type_name : Raised → String
  pub message : Raised → String

-- adapter.py: what is handed to an adapter, and what it returns.
pub record AgentInvocation : Type 0 where
  pub node_id : String
  pub adapter : String
  pub prompt : String
  pub args : List String
  pub env : Dict String
  pub output_schema : Option String
  pub fixture : Option String

-- A structured output of `None` is a JSON null.
pub record AgentResult : Type 0 where
  pub exit_status : ℤ
  pub stdout : String
  pub stderr : String
  pub structured_output : Value
  pub artifacts : List String
  pub adapter_failure : Bool

-- `AgentResult(exit_status=…, stdout=…, stderr=…)`
abbrev pub plain_result : ℤ → String → String → AgentResult
plain_result exit_status stdout stderr = record {
  exit_status = exit_status;
  stdout = stdout;
  stderr = stderr;
  structured_output = Value.null;
  artifacts = [];
  adapter_failure = false;
}

abbrev pub Adapter : Type 0
Adapter = AgentInvocation → Result Raised AgentResult
