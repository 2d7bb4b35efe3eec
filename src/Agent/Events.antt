-- ===== src/Agent/Events.antt =====
-- codex_exec.py: what is read off the events that `codex exec` writes.
use cli_agentic_workflow.Prelude.{
  ◌==◌, Bool-cases, false, not, arith, refl, none, inl, ◌||◌, String, List, exists_in, Option, ◌≡◌,
  Bool, some, inr, Option-cases, [], ◌∷◌,
}
use cli_agentic_workflow.Value.{Value, Fields, field_at}
use cli_agentic_workflow.Agent.Codex.{
  has_text, text_or, turn_error, turn_failure, message_of, final_message, final_agent_message,
}

abbrev pub reports_failure : Fields → Bool
reports_failure event =
    has_text "turn.failed" (field_at "type" event) || has_text "error" (field_at "type" event)

-- The messages of the agent, in order, and the last of a list.
abbrev pub messages : List Fields → List String
messages [] = []
messages (event ∷ events) = elim (message_of event) [
  | none ↦ messages events
  | some s ↦ s ∷ messages events
]

abbrev pub last_or : Option String → List String → Option String
last_or other [] = other
last_or other (s ∷ rest) = last_or (some s) rest

text_or-nonempty :
    (other : String) (v : Option Value) → (other == "") ≡ false → (text_or other v == "") ≡ false
text_or-nonempty other v h = ground arith

turn_error-nonempty : (v : Option Value) → (turn_error v == "") ≡ false
turn_error-nonempty (some (Value.dict d)) =
    text_or-nonempty "codex reported a failed turn" (field_at "message" d) refl
turn_error-nonempty none = refl
turn_error-nonempty (some Value.null) = refl
turn_error-nonempty (some (Value.bool b)) = refl
turn_error-nonempty (some (Value.int z)) = refl
turn_error-nonempty (some (Value.float x)) = refl
turn_error-nonempty (some (Value.str s)) = refl
turn_error-nonempty (some (Value.list xs)) = refl

-- The error message is empty, which is read as no failure, exactly when no event reports one.
pub turn_failure-reports :
    (events : List Fields) → (turn_failure events == "") ≡ not (exists_in reports_failure events)
unfolding turn_failure
turn_failure-reports [] = refl
turn_failure-reports (event ∷ events) =
    elim (Bool-cases (has_text "turn.failed" (field_at "type" event))) [
      | inl e ↦ rw (e, turn_failure) (turn_error-nonempty (field_at "error" event))
      | inr e ↦ elim (Bool-cases (has_text "error" (field_at "type" event))) [
        | inl f ↦
            ground
              (arith, text_or-nonempty "codex reported an error" (field_at "message" event) refl)
        | inr f ↦ ground (arith, turn_failure-reports events)
      ]
    ]

final_message-last :
    (text : Option String) (events : List Fields)
    → final_message text events ≡ last_or text (messages events)
unfolding final_message
final_message-last text [] = refl
final_message-last text (event ∷ events) = elim (Option-cases (message_of event)) [
  | inl e ↦ ground (arith, final_message-last text events)
  | inr (s, e) ↦ ground (arith, final_message-last (some s) events)
]

-- The message that is taken for the answer is the last that the agent wrote.
final_agent_message-last :
    (events : List Fields) → final_agent_message events ≡ last_or none (messages events)
unfolding final_agent_message
final_agent_message-last events = final_message-last none events
