-- ===== src/Executor/Nodes/Reported.antt =====
-- executor.py: what the NodeResult of an Attempt claims.
use cli_agentic_workflow.Prelude.{
  true, ◌∷◌, Result, Dict, List, refl, inl, pos, inr, ok, eq_ℤ_iff, Bool-cases, keep, [], raised,
  arith, Bool, All, String, ◌≡◌, eq_ℤ, some, get, Option-cases, subst,
}
use cli_agentic_workflow.Value.{Value}
use cli_agentic_workflow.Model.Node.{ShellNodeInputs, AgentNodeInputs, Node, Inputs}
use cli_agentic_workflow.Executor.Outcome.{NodeResult, succeeded, retryable}
use cli_agentic_workflow.Executor.Nodes.{
  resolve_shell_env, execute_shell_node, existing_artifacts, agent_failed, judged, returncode_or,
  invocation_of, verdict_on, agent_node_result, on_invoked, execute_agent_node, caught,
  execute_node,
}
use cli_agentic_workflow.Agent.Text.{strip}
use cli_agentic_workflow.Agent.Machine.{
  Ended, Machine, Raised, Conformance, Python, AgentResult, Adapter, is_exception, adapter_error,
  unicode_decode_error, assertion_error, timeout_error, runtime_error, file_not_found_error,
  cancelled_error, permission_error, os_error, value_error, type_error, key_error,
  keyboard_interrupt, system_exit,
}
use cli_agentic_workflow.Agent.Registry.{resolve}
use cli_agentic_workflow.Status.{FailureKind}

keep-All {ℓ} : {A : Type ℓ} (f : A → Bool) (xs : List A) → All (λ x. f x ≡ true) (keep f xs)
keep-All f [] = tt
keep-All f (x ∷ xs) = elim (Bool-cases (f x)) [
  | inl e ↦ rw e (e, keep-All f xs)
  | inr e ↦ rw e (keep-All f xs)
]

module _ (m : Machine) (p : Python) (adapters : Dict Adapter)
    (contract : String → Value → Conformance) where
  -- A success has exit status zero, and every artifact is a file.
  abbrev Backed : NodeResult → Type 0
  Backed r =
      (succeeded r ≡ true → r.exit_status ≡ pos 0) × All (λ a. m.is_file a ≡ true) r.artifacts

  abbrev Backs : Result Raised NodeResult → Type 0
  Backs (ok r) = Backed r
  Backs (raised e) = Unit

  shell-Backs :
      (n : Node) (i : ShellNodeInputs) → Backs (execute_shell_node m p adapters contract n i)
  unfolding execute_shell_node succeeded
  shell-Backs n i = by_end (m.shell i.command (resolve_shell_env m.environ i.env)) refl
    where
      by_end :
          (ended : Ended)
          → m.shell i.command (resolve_shell_env m.environ i.env) ≡ ended
          → Backs (execute_shell_node m p adapters contract n i)
      by_end Ended.timed_out e = rw (e, execute_shell_node) (λ h. absurd (ground arith), tt)
      by_end Ended.cancelled e = rw (e, execute_shell_node) tt
      by_end Ended.not_found e = rw (e, execute_shell_node) tt
      by_end (Ended.interrupted x) e = rw (e, execute_shell_node) tt
      by_end (Ended.completed z out err) e =
          rw (e, execute_shell_node)
            (
              λ h. ground (
                arith,
                eq_ℤ_iff (returncode_or m p adapters contract z) (pos 0),
                Bool-cases (eq_ℤ (returncode_or m p adapters contract z) (pos 0)),
              ),
              tt,
            )

  judged-Backs :
      (n : Node) (i : AgentNodeInputs) (a : AgentResult) (v : Conformance)
      → Backs (judged m p adapters contract n i a v)
  unfolding agent_failed succeeded existing_artifacts strip
  judged-Backs n i a Conformance.conforms =
      (λ h. ground (arith, eq_ℤ_iff a.exit_status (pos 0)), keep-All m.is_file a.artifacts)
  judged-Backs n i a (Conformance.breached t) =
      (λ h. absurd (ground arith), keep-All m.is_file a.artifacts)
  judged-Backs n i a (Conformance.raises e) = tt

  on_invoked-Backs :
      (n : Node) (i : AgentNodeInputs) (x : Result Raised AgentResult)
      → Backs (on_invoked m p adapters contract n i x)
  unfolding succeeded
  on_invoked-Backs n i (ok a) = judged-Backs n i a (verdict_on m p adapters contract i a)
  on_invoked-Backs n i (raised timeout_error) = (λ h. absurd (ground arith), tt)
  on_invoked-Backs n i (raised (adapter_error x)) = tt
  on_invoked-Backs n i (raised unicode_decode_error) = tt
  on_invoked-Backs n i (raised assertion_error) = tt
  on_invoked-Backs n i (raised runtime_error) = tt
  on_invoked-Backs n i (raised file_not_found_error) = tt
  on_invoked-Backs n i (raised cancelled_error) = tt
  on_invoked-Backs n i (raised permission_error) = tt
  on_invoked-Backs n i (raised os_error) = tt
  on_invoked-Backs n i (raised value_error) = tt
  on_invoked-Backs n i (raised type_error) = tt
  on_invoked-Backs n i (raised key_error) = tt
  on_invoked-Backs n i (raised keyboard_interrupt) = tt
  on_invoked-Backs n i (raised system_exit) = tt

  agent-Backs :
      (n : Node) (i : AgentNodeInputs) → Backs (execute_agent_node m p adapters contract n i)
  unfolding execute_agent_node resolve
  agent-Backs n i = elim (Option-cases (get i.adapter adapters)) [
    | inl e ↦ rw (e, execute_agent_node, resolve) tt
    | inr (adapter, e) ↦
        rw (e, execute_agent_node, resolve)
          (on_invoked-Backs n i (adapter (invocation_of m p adapters contract n i)))
  ]

  caught-Backs :
      (n : Node) (i : AgentNodeInputs) (x : Result Raised NodeResult)
      → Backs x
      → Backs (caught m p adapters contract n i x)
  unfolding succeeded
  caught-Backs n i (ok r) h = h
  caught-Backs n i (raised e) h = elim (Bool-cases (is_exception e)) [
    | inl f ↦ rw f (λ g. absurd (ground arith), tt)
    | inr f ↦ rw f tt
  ]

  execute-Backs :
      (n : Node) (inputs : Inputs)
      → n.inputs ≡ inputs
      → Backs (execute_node m p adapters contract n)
  unfolding execute_node
  execute-Backs n (Inputs.shell i) e = rw (e, execute_node) (shell-Backs n i)
  execute-Backs n (Inputs.human_gate i) e = rw (e, execute_node) tt
  execute-Backs n (Inputs.agent i) e =
      rw (e, execute_node)
        (caught-Backs n i (execute_agent_node m p adapters contract n i) (agent-Backs n i))

-- A result that is a success has exit status zero, and every artifact that a result names is a file.
pub execute_node-Backed :
    (m : Machine) (p : Python) (adapters : Dict Adapter) (contract : String → Value → Conformance)
    (n : Node) (r : NodeResult)
    → execute_node m p adapters contract n ≡ ok r
    → (succeeded r ≡ true → r.exit_status ≡ pos 0) × All (λ a. m.is_file a ≡ true) r.artifacts
execute_node-Backed m p adapters contract n r e =
    subst (Backs m p adapters contract) e (execute-Backs m p adapters contract n n.inputs refl)

-- A failure that the adapter signals makes the Attempt's result a failed one, which may be tried again,
-- whatever the contract would say: with the adapter's exit status, stdout and stderr, and with the
-- structured output that came with it.
pub execute_node-adapter_failure :
    (m : Machine) (p : Python) (adapters : Dict Adapter) (contract : String → Value → Conformance)
    (n : Node) (i : AgentNodeInputs) (adapter : Adapter) (a : AgentResult)
    → n.inputs ≡ Inputs.agent i
    → get i.adapter adapters ≡ some adapter
    → adapter (invocation_of m p adapters contract n i) ≡ ok a
    → a.adapter_failure ≡ true
    → (r : NodeResult) × (execute_node m p adapters contract n ≡ ok r)
      × (r.node_id ≡ n.id)
      × (r.adapter ≡ some i.adapter)
      × (r.failure_kind ≡ some FailureKind.failed)
      × (retryable r ≡ true)
      × (r.exit_status ≡ a.exit_status)
      × (r.stdout ≡ a.stdout)
      × (r.stderr ≡ a.stderr)
      × (r.structured_output ≡ a.structured_output)
unfolding execute_node execute_agent_node resolve agent_failed existing_artifacts strip retryable
execute_node-adapter_failure m p adapters contract n i adapter a k g o f =
    let failed : agent_failed m p adapters contract a ≡ true =
      ground (arith, Bool-cases (eq_ℤ a.exit_status (pos 0))) in
    (
      agent_node_result m p adapters contract n i a a.exit_status a.stderr true,
      ground (arith, failed),
      refl,
      refl,
      refl,
      refl,
      refl,
      refl,
      refl,
      refl,
    )
