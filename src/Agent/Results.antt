-- ===== src/Agent/Results.antt =====
-- claude_print.py and codex_exec.py: what the result of a CLI that ended may hold.
use cli_agentic_workflow.Prelude.{
  ◌≡◌, ◌&&◌, subst, ◌≢◌, refl, ◌>>=◌, Option-cases, ℤ, pos, eq_ℤ_iff, Option, none, arith, ok,
  String, inr, inl, Result, true, raised, is_some, eq_ℤ, ◌==◌, Bool-cases, some,
}
use cli_agentic_workflow.Value.{Value, Fields, field_at}
use cli_agentic_workflow.Agent.Codex.{
  turn_failure, final_agent_message, parse_events, parse_structured_message, from_message,
  codex_normalize,
}
use cli_agentic_workflow.Agent.Subprocess.{CompletedSubprocess, node_context}
use cli_agentic_workflow.Agent.Claude.{
  is_true, parse_result_wrapper, from_wrapper, claude_normalize,
}
use cli_agentic_workflow.Agent.Machine.{
  Machine, Raised, Python, AgentInvocation, AgentResult, plain_result,
}

-- The real exit status; a failure that the adapter signals only on a zero exit; and no structured
-- output on a failure of either kind.
pub record IsHonest (returncode : ℤ) (r : AgentResult) : Type 0 where
  pub real_status : r.exit_status ≡ returncode
  pub signalled_on_zero : r.adapter_failure ≡ true → returncode ≡ pos 0
  pub nothing_on_signal : r.adapter_failure ≡ true → r.structured_output ≡ Value.null
  pub nothing_on_exit : returncode ≢ pos 0 → r.structured_output ≡ Value.null

-- What a step may return.
abbrev Yields : (AgentResult → Type 0) → Result Raised AgentResult → Type 0
Yields P (ok r) = P r
Yields P (raised e) = Unit

Yields-bind {ℓ} :
    {A : Type ℓ} (P : AgentResult → Type 0) (x : Result Raised A)
    (f : A → Result Raised AgentResult)
    → ((a : A) → Yields P (f a))
    → Yields P (x >>= f)
Yields-bind P (ok a) f h = h a
Yields-bind P (raised e) f h = tt

plain_result-IsHonest : (z : ℤ) (out err : String) → IsHonest z (plain_result z out err)
plain_result-IsHonest z out err = record {
  real_status = refl;
  signalled_on_zero = λ h. absurd (ground arith);
  nothing_on_signal = λ h. refl;
  nothing_on_exit = λ h. refl;
}

signalled-IsHonest :
    (z : ℤ) (out err err' : String)
    → z ≡ pos 0
    → IsHonest z (record (plain_result z out err) { stderr = err'; adapter_failure = true })
signalled-IsHonest z out err err' e = record {
  real_status = refl;
  signalled_on_zero = λ h. e;
  nothing_on_signal = λ h. refl;
  nothing_on_exit = λ h. refl;
}

structured-IsHonest :
    (z : ℤ) (out err : String) (v : Value)
    → z ≡ pos 0
    → IsHonest z (record (plain_result z out err) { structured_output = v })
structured-IsHonest z out err v e = record {
  real_status = refl;
  signalled_on_zero = λ h. e;
  nothing_on_signal = λ h. absurd (ground arith);
  nothing_on_exit = λ h. absurd (h e);
}

module _ (m : Machine) (p : Python) where
  from_wrapper-IsHonest :
      (i : AgentInvocation) (c : CompletedSubprocess) (w : Fields)
      → c.returncode ≡ pos 0
      → Yields (IsHonest c.returncode) (from_wrapper m p i c w)
  unfolding node_context
  from_wrapper-IsHonest i c w e = elim (Bool-cases (is_true (field_at "is_error" w))) [
    | inl f ↦ rw (f, from_wrapper) (signalled-IsHonest c.returncode c.stdout c.stderr _ e)
    | inr f ↦ elim (Option-cases (field_at "structured_output" w)) [
      | inl g ↦ rw (f, g, from_wrapper) tt
      | inr (v, g) ↦
          rw (f, g, from_wrapper) (structured-IsHonest c.returncode c.stdout c.stderr v e)
    ]
  ]

  claude_normalize-Yields :
      (i : AgentInvocation) (c : CompletedSubprocess)
      → Yields (IsHonest c.returncode) (claude_normalize m p i c)
  unfolding claude_normalize
  claude_normalize-Yields i c =
      elim (Bool-cases (is_some i.output_schema && eq_ℤ c.returncode (pos 0))) [
        | inl e ↦ rw e (
            Yields-bind (IsHonest c.returncode) (parse_result_wrapper m p c.stdout i) _
              λ w. from_wrapper-IsHonest i c w (ground (arith, eq_ℤ_iff c.returncode (pos 0))))
        | inr e ↦ rw e (plain_result-IsHonest c.returncode c.stdout c.stderr)
      ]

  from_message-Yields :
      (i : AgentInvocation) (c : CompletedSubprocess) (message : Option String)
      → c.returncode ≡ pos 0
      → Yields (IsHonest c.returncode) (from_message m p i c message)
  from_message-Yields i c none e = elim (Bool-cases (is_some i.output_schema)) [
    | inl f ↦ rw f tt
    | inr f ↦ rw f (plain_result-IsHonest c.returncode c.stdout c.stderr)
  ]
  from_message-Yields i c (some s) e = elim (Bool-cases (is_some i.output_schema)) [
    | inl f ↦ rw f (
        Yields-bind (IsHonest c.returncode) (parse_structured_message m p s i) _
          λ v. structured-IsHonest c.returncode s c.stderr v e)
    | inr f ↦ rw f (plain_result-IsHonest c.returncode s c.stderr)
  ]

  codex_normalize-Yields :
      (i : AgentInvocation) (c : CompletedSubprocess)
      → Yields (IsHonest c.returncode) (codex_normalize m p i c)
  unfolding codex_normalize
  codex_normalize-Yields i c = elim (Bool-cases (eq_ℤ c.returncode (pos 0))) [
    | inr e ↦ rw e (plain_result-IsHonest c.returncode c.stdout c.stderr)
    | inl e ↦
        let z : c.returncode ≡ pos 0 = ground (arith, eq_ℤ_iff c.returncode (pos 0)) in
        let events = parse_events m p c.stdout in
        elim (Bool-cases (turn_failure events == "")) [
          | inl f ↦ rw (e, f) (from_message-Yields i c (final_agent_message events) z)
          | inr f ↦ rw (e, f) (signalled-IsHonest c.returncode c.stdout c.stderr _ z)
        ]
  ]

-- Of a CLI that ended, both adapters report the real exit status. They signal a failure of their own
-- only on a zero exit, and give no structured output with it, nor with another exit. On an exit that
-- is not zero they return the same.
pub normalize-IsHonest :
    (m : Machine) (p : Python) (i : AgentInvocation) (c : CompletedSubprocess)
    → ((r : AgentResult) → claude_normalize m p i c ≡ ok r → IsHonest c.returncode r)
      × ((r : AgentResult) → codex_normalize m p i c ≡ ok r → IsHonest c.returncode r)
      × (c.returncode ≢ pos 0 → claude_normalize m p i c ≡ codex_normalize m p i c)
unfolding claude_normalize codex_normalize
normalize-IsHonest m p i c = (
  λ r e. subst (Yields (IsHonest c.returncode)) e (claude_normalize-Yields m p i c),
  λ r e. subst (Yields (IsHonest c.returncode)) e (codex_normalize-Yields m p i c),
  λ h. elim (Bool-cases (eq_ℤ c.returncode (pos 0))) [
    | inl e ↦ absurd (h (ground (arith, eq_ℤ_iff c.returncode (pos 0))))
    | inr e ↦ elim (Bool-cases (is_some i.output_schema)) [
      | inl f ↦ rw (e, f) refl
      | inr f ↦ rw (e, f) refl
    ]
  ],
)
