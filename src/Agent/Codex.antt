-- ===== src/Agent/Codex.antt =====
-- codex_exec.py: `codex exec --json`.
use cli_agentic_workflow.Prelude.{
  [], ◌∷◌, String, if◌then◌else◌, List, Bool, ◌>>=◌, ok, is_some, Option, some, pos, eq_ℤ, false,
  ◌==◌, true, none, Result, ◌++◌,
}
use cli_agentic_workflow.Value.{Value, Fields, field_at}
use cli_agentic_workflow.Model.Text.{is_blank}
use cli_agentic_workflow.Agent.Subprocess.{
  SubprocessAdapter, CompletedSubprocess, fail, node_context, resolve_cli_path, run_cli, annotated,
}
use cli_agentic_workflow.Agent.Text.{◌<>◌, strip, splitlines}
use cli_agentic_workflow.Agent.Machine.{
  Machine, AdapterError, Raised, Python, AgentInvocation, AgentResult, plain_result,
}

abbrev pub codex_cli : String
codex_cli = "codex"

abbrev pub has_text : String → Option Value → Bool
has_text t (some (Value.str s)) = s == t
has_text t _ = false

-- A non-empty string at a key, or the other text.
abbrev pub text_or : String → Option Value → String
text_or other (some (Value.str s)) = if s == "" then other else s
text_or other _ = other

abbrev pub turn_error : Option Value → String
turn_error (some (Value.dict d)) = text_or "codex reported a failed turn" (field_at "message" d)
turn_error _ = "codex reported a failed turn"

-- `_turn_failure`
unfoldable pub turn_failure : List Fields → String
unfolding field_at
turn_failure [] = ""
turn_failure (event ∷ events) = elim (has_text "turn.failed" (field_at "type" event)) [
  | true ↦ turn_error (field_at "error" event)
  | false ↦ elim (has_text "error" (field_at "type" event)) [
    | true ↦ text_or "codex reported an error" (field_at "message" event)
    | false ↦ turn_failure events
  ]
]

abbrev pub item_text : Option Value → Option String
item_text (some (Value.dict d)) = elim (has_text "agent_message" (field_at "type" d)) [
  | false ↦ none
  | true ↦ elim (field_at "text" d) [ some (Value.str s) ↦ some s | _ ↦ none ]
]
item_text _ = none

-- The text of an event that carries an agent's message.
unfoldable pub message_of : Fields → Option String
unfolding field_at
message_of event =
    if has_text "item.completed" (field_at "type" event)
    then item_text (field_at "item" event)
    else none

-- The loop of `_final_agent_message`, with the `text` so far.
unfoldable pub final_message : Option String → List Fields → Option String
unfolding message_of
final_message text [] = text
final_message text (event ∷ events) =
    final_message (elim (message_of event) [ none ↦ text | some s ↦ some s ]) events

unfoldable pub final_agent_message : List Fields → Option String
unfolding final_message
final_agent_message = final_message none

module _ (m : Machine) (p : Python) where
  abbrev pub event_of : String → Option Fields
  event_of raw_line = elim (is_blank raw_line) [
    | true ↦ none
    | false ↦ elim (p.loads (strip raw_line)) [ some (Value.dict d) ↦ some d | _ ↦ none ]
  ]

  abbrev pub events_in : List String → List Fields
  events_in [] = []
  events_in (line ∷ lines) = elim (event_of line) [
    | none ↦ events_in lines
    | some event ↦ event ∷ events_in lines
  ]

  unfoldable pub parse_events : (stdout : String) → List Fields
  unfolding is_blank strip splitlines
  parse_events stdout = events_in (splitlines stdout)

  abbrev pub codex_flags : AgentInvocation → List String
  codex_flags i = elim i.output_schema [ none ↦ [] | some path ↦ "--output-schema" ∷ path ∷ [] ]

  unfoldable pub codex_argv : AgentInvocation → (cli : String) → List String
  codex_argv i cli = cli ∷ "exec" ∷ "--json" ∷ i.args ++ codex_flags i ++ "--" ∷ i.prompt ∷ []

  unfoldable pub annotate_codex_error : (stderr message : String) → String
  unfolding annotated
  annotate_codex_error stderr message = annotated stderr ("codex reported an error: " <> message)

  unfoldable pub parse_structured_message :
      (message : String) → AgentInvocation → Result Raised Value
  unfolding node_context
  parse_structured_message message i = elim (p.loads message) [
    | none ↦ fail (AdapterError.unparseable_message (node_context m p i))
    | some v ↦ ok v
  ]

  -- A zero exit with no failure in its events.
  abbrev pub from_message :
      AgentInvocation → CompletedSubprocess → Option String → Result Raised AgentResult
  from_message i c none =
      if is_some i.output_schema
      then fail (AdapterError.no_agent_message (node_context m p i))
      else ok (plain_result c.returncode c.stdout c.stderr)
  from_message i c (some message) =
      if is_some i.output_schema
      then (parse_structured_message message i >>= λ v.
          ok (record (plain_result c.returncode message c.stderr) { structured_output = v }))
      else ok (plain_result c.returncode message c.stderr)

  abbrev pub from_events :
      AgentInvocation → CompletedSubprocess → List Fields → Result Raised AgentResult
  from_events i c events =
      let failure = turn_failure events in
      if failure == ""
      then from_message i c (final_agent_message events)
      else ok (record (plain_result c.returncode c.stdout c.stderr) {
        stderr = annotate_codex_error c.stderr failure;
        adapter_failure = true;
      })

  unfoldable pub codex_normalize : AgentInvocation → CompletedSubprocess → Result Raised AgentResult
  unfolding parse_events turn_failure final_agent_message annotate_codex_error
      parse_structured_message node_context
  codex_normalize i c =
      if eq_ℤ c.returncode (pos 0)
      then from_events i c (parse_events c.stdout)
      else ok (plain_result c.returncode c.stdout c.stderr)

  unfoldable pub codex_invoke :
      SubprocessAdapter → AgentInvocation → SubprocessAdapter × Result Raised AgentResult
  unfolding resolve_cli_path codex_argv run_cli codex_normalize node_context
  codex_invoke a i =
      let (a', located) = resolve_cli_path m p a (node_context m p i) in
      (
        a',
        located >>= λ cli.
            run_cli m p a' (codex_argv i cli) (node_context m p i) (some i.env)
            >>= codex_normalize i,
      )
