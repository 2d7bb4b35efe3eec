-- ===== src/Agent/Claude.antt =====
-- claude_print.py: `claude -p`.
use cli_agentic_workflow.Prelude.{
  Result, eq_ℤ, List, false, none, raised, ◌>>=◌, pos, [], ◌==◌, ok, ◌&&◌, Bool, String,
  if◌then◌else◌, is_some, some, Option, ◌∷◌, ◌++◌, true,
}
use cli_agentic_workflow.Value.{Value, Fields, field_at}
use cli_agentic_workflow.Agent.Subprocess.{
  SubprocessAdapter, CompletedSubprocess, fail, node_context, parse_json_object, resolve_cli_path,
  run_cli, annotated,
}
use cli_agentic_workflow.Agent.Text.{◌<>◌}
use cli_agentic_workflow.Agent.Machine.{
  Read, Machine, AdapterError, Raised, Python, AgentInvocation, AgentResult, plain_result,
  unicode_decode_error,
}

abbrev pub claude_cli : String
claude_cli = "claude"

abbrev pub is_true : Option Value → Bool
is_true (some (Value.bool b)) = b
is_true _ = false

module _ (m : Machine) (p : Python) where
  unfoldable pub read_schema : AgentInvocation → String → Result Raised String
  unfolding node_context
  read_schema i path = elim (m.read_text path) [
    | Read.text schema ↦ ok schema
    | Read.os_error ↦ fail (AdapterError.unreadable_schema (node_context m p i) path)
    | Read.undecodable ↦ raised unicode_decode_error
  ]

  -- The flags that ask for a structured result.
  unfoldable pub claude_flags : AgentInvocation → Result Raised (List String)
  unfolding read_schema
  claude_flags i = elim i.output_schema [
    | none ↦ ok []
    | some path ↦ read_schema i path >>= λ schema.
        ok ("--output-format" ∷ "json" ∷ "--json-schema" ∷ schema ∷ [])
  ]

  unfoldable pub claude_argv : AgentInvocation → (cli : String) (flags : List String) → List String
  claude_argv i cli flags = cli ∷ "-p" ∷ i.args ++ flags ++ "--" ∷ i.prompt ∷ []

  abbrev pub subtype_text : Option Value → String
  subtype_text (some (Value.str s)) = if s == "" then "" else " (subtype: " <> s <> ")"
  subtype_text _ = ""

  unfoldable pub annotate_claude_error : (stderr : String) (wrapper : Fields) → String
  unfolding annotated field_at
  annotate_claude_error stderr wrapper =
      annotated stderr ("claude reported an error" <> subtype_text (field_at "subtype" wrapper))

  abbrev pub parse_result_wrapper : (stdout : String) → AgentInvocation → Result Raised Fields
  parse_result_wrapper stdout i =
      parse_json_object m p stdout (node_context m p i) "'claude -p --output-format json'"

  abbrev pub from_wrapper :
      AgentInvocation → CompletedSubprocess → Fields → Result Raised AgentResult
  from_wrapper i c wrapper = elim (is_true (field_at "is_error" wrapper)) [
    | true ↦ ok (record (plain_result c.returncode c.stdout c.stderr) {
      stderr = annotate_claude_error c.stderr wrapper;
      adapter_failure = true;
    })
    | false ↦ elim (field_at "structured_output" wrapper) [
      | none ↦ fail (AdapterError.no_structured_output (node_context m p i))
      | some v ↦ ok (record (plain_result c.returncode c.stdout c.stderr) { structured_output = v })
    ]
  ]

  -- What the completed process becomes.
  unfoldable pub claude_normalize :
      AgentInvocation → CompletedSubprocess → Result Raised AgentResult
  unfolding annotate_claude_error parse_json_object field_at node_context
  claude_normalize i c =
      if is_some i.output_schema && eq_ℤ c.returncode (pos 0)
      then (parse_result_wrapper c.stdout i >>= from_wrapper i c)
      else ok (plain_result c.returncode c.stdout c.stderr)

  unfoldable pub claude_invoke :
      SubprocessAdapter → AgentInvocation → SubprocessAdapter × Result Raised AgentResult
  unfolding resolve_cli_path claude_flags claude_argv run_cli claude_normalize node_context
  claude_invoke a i =
      let (a', located) = resolve_cli_path m p a (node_context m p i) in
      (
        a',
        located >>= λ cli. claude_flags i >>= λ flags.
            run_cli m p a' (claude_argv i cli flags) (node_context m p i) (some i.env)
            >>= claude_normalize i,
      )
