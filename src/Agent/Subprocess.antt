-- ===== src/Agent/Subprocess.antt =====
-- subprocess_adapter.py: the location and the run of an agent's CLI, and the reading of JSON objects.
use cli_agentic_workflow.Prelude.{
  ◌∷◌, eq_ℤ, ℤ, Result, List, String, none, some, ok, raised, pos, ◌>>=◌, Dict, Option,
  if◌then◌else◌, [],
}
use cli_agentic_workflow.Value.{Value, Fields}
use cli_agentic_workflow.Agent.Text.{◌<>◌, strip, rstrip}
use cli_agentic_workflow.Agent.Machine.{
  Ended, Read, Machine, AdapterError, Raised, Python, AgentInvocation, adapter_error,
  unicode_decode_error, assertion_error, timeout_error, cancelled_error,
}
use cli_agentic_workflow.Model.Text.{is_blank}

pub record SubprocessAdapter : Type 0 where
  pub cli_name : String
  pub resolved_cli : Option String

pub record CompletedSubprocess : Type 0 where
  pub returncode : ℤ
  pub stdout : String
  pub stderr : String

abbrev pub fail {ℓ} : {A : Type ℓ} → AdapterError → Result Raised A
fail e = raised (adapter_error e)

module _ (m : Machine) (p : Python) where
  unfoldable pub node_context : AgentInvocation → String
  node_context i = "node " <> p.repr_of i.node_id <> " (adapter " <> p.repr_of i.adapter <> ")"

  abbrev pub as_object : AdapterError → Value → Result Raised Fields
  as_object e (Value.dict d) = ok d
  as_object e v = fail e

  unfoldable pub parse_json_object : (text context source : String) → Result Raised Fields
  parse_json_object text context source = elim (p.loads text) [
    | none ↦ fail (AdapterError.unparseable_stdout context source)
    | some v ↦ as_object (AdapterError.not_an_object context source) v
  ]

  unfoldable pub read_json_object : (path context source : String) → Result Raised Fields
  read_json_object path context source = elim (m.read_text path) [
    | Read.os_error ↦ fail (AdapterError.unreadable context source path)
    | Read.undecodable ↦ raised unicode_decode_error
    | Read.text raw ↦ elim (p.loads raw) [
      | none ↦ fail (AdapterError.invalid_json context source path)
      | some v ↦ as_object (AdapterError.no_json_object context source path) v
    ]
  ]

  -- The path, and the adapter that has cached it.
  unfoldable pub resolve_cli_path :
      SubprocessAdapter → String → SubprocessAdapter × Result Raised String
  resolve_cli_path a context = elim a.resolved_cli [
    | some path ↦ (a, ok path)
    | none ↦ elim (m.which a.cli_name) [
      | none ↦ (a, fail (AdapterError.missing_cli context a.cli_name))
      | some path ↦ (record a { resolved_cli = some path }, ok path)
    ]
  ]

  unfoldable pub run_cli :
      SubprocessAdapter
      → (argv : List String) (context : String) (env : Option (Dict String))
      → Result Raised CompletedSubprocess
  run_cli a argv context env = elim (m.exec argv env) [
    | Ended.completed (some returncode) stdout stderr ↦
        ok (record { returncode = returncode; stdout = stdout; stderr = stderr })
    | Ended.completed none stdout stderr ↦ raised assertion_error
    | Ended.not_found ↦ fail (AdapterError.missing_cli context a.cli_name)
    | Ended.timed_out ↦ raised timeout_error
    | Ended.cancelled ↦ raised cancelled_error
    | Ended.interrupted e ↦ raised e
  ]

  abbrev pub version_of : SubprocessAdapter → CompletedSubprocess → Result Raised String
  version_of a c =
      if eq_ℤ c.returncode (pos 0)
      then ok (strip c.stdout)
      else fail (AdapterError.version_failed a.cli_name c.returncode (strip c.stderr))

  unfoldable pub capability_check : SubprocessAdapter → SubprocessAdapter × Result Raised String
  unfolding resolve_cli_path run_cli strip
  capability_check a =
      let (a', located) = resolve_cli_path a "capability check" in
      (
        a',
        located
            >>= (λ cli. run_cli a' (cli ∷ "--version" ∷ []) "capability check" none)
            >>= version_of a',
      )

-- `f"{stderr.rstrip()}\n{annotation}" if stderr.strip() else annotation`
unfoldable pub annotated : (stderr annotation : String) → String
unfolding rstrip is_blank
annotated stderr annotation =
    if is_blank stderr then annotation else rstrip stderr <> "\n" <> annotation
