-- ===== src/Executor/Nodes/Verdicts.antt =====
-- executor.py: what a Node's Attempt comes to.
use cli_agentic_workflow.Prelude.{
  String, some, Dict, pos, ok, get, ◌≡◌, false, eq_ℤ_iff, ap, true, arith, none, raised,
  Option-cases, refl, ◌↔◌, Result, >>=-eq-ok, inl, inr,
}
use cli_agentic_workflow.Value.{Value}
use cli_agentic_workflow.Model.Node.{ShellNodeInputs, AgentNodeInputs, Inputs, Node}
use cli_agentic_workflow.Executor.Nodes.{
  resolve_shell_env, invocation_of, execute_shell_node, existing_artifacts, agent_failed,
  verdict_on, judged, on_invoked, execute_agent_node, caught, execute_node,
}
use cli_agentic_workflow.Agent.Machine.{
  Ended, Machine, Python, AgentResult, Adapter, Conformance, Raised, adapter_error,
  unicode_decode_error, assertion_error, timeout_error, runtime_error, file_not_found_error,
  cancelled_error, permission_error, os_error, value_error, type_error, key_error,
  keyboard_interrupt, system_exit,
}
use cli_agentic_workflow.Executor.Outcome.{NodeResult, succeeded}
use cli_agentic_workflow.Agent.Text.{strip}
use cli_agentic_workflow.Agent.Registry.{resolve}

module _ (m : Machine) (p : Python) (adapters : Dict Adapter)
    (contract : String → Value → Conformance) where
  -- The Attempt that succeeds, described by what it meets.
  pub data IsSuccess (n : Node) : Type 0 where
    shell_exit_zero :
        (i : ShellNodeInputs) (stdout stderr : String)
        → n.inputs ≡ Inputs.shell i
        → m.shell i.command (resolve_shell_env m.environ i.env)
          ≡ Ended.completed (some (pos 0)) stdout stderr
        → IsSuccess n
    agent_conforms :
        (i : AgentNodeInputs) (adapter : Adapter) (r : AgentResult)
        → n.inputs ≡ Inputs.agent i
        → get i.adapter adapters ≡ some adapter
        → adapter (invocation_of m p adapters contract n i) ≡ ok r
        → r.exit_status ≡ pos 0
        → r.adapter_failure ≡ false
        → ((path : String)
            → i.output_schema ≡ some path
            → contract path r.structured_output ≡ Conformance.conforms)
        → IsSuccess n

  succeeds_shell :
      (n : Node) (i : ShellNodeInputs) (r : NodeResult) (ended : Ended)
      → n.inputs ≡ Inputs.shell i
      → m.shell i.command (resolve_shell_env m.environ i.env) ≡ ended
      → execute_shell_node m p adapters contract n i ≡ ok r
      → succeeded r ≡ true
      → IsSuccess n
  unfolding execute_shell_node succeeded
  succeeds_shell n i r (Ended.completed (some z) out err) k s e h =
      let z' : z ≡ pos 0 = ground (arith, eq_ℤ_iff z (pos 0)) in
      IsSuccess.shell_exit_zero i out err k (rw s (ap (λ y. Ended.completed (some y) out err) z'))
  succeeds_shell n i r (Ended.completed none out err) k s e h = absurd (ground arith)
  succeeds_shell n i r Ended.not_found k s e h = absurd (ground arith)
  succeeds_shell n i r Ended.timed_out k s e h = absurd (ground arith)
  succeeds_shell n i r Ended.cancelled k s e h = absurd (ground arith)
  succeeds_shell n i r (Ended.interrupted x) k s e h = absurd (ground arith)

  -- What it takes of an agent's result.
  abbrev Accepted : AgentNodeInputs → AgentResult → Type 0
  Accepted i a =
      (a.exit_status ≡ pos 0)
      × (a.adapter_failure ≡ false)
      × ((path : String)
          → i.output_schema ≡ some path
          → contract path a.structured_output ≡ Conformance.conforms)

  judged-Accepted :
      (n : Node) (i : AgentNodeInputs) (a : AgentResult) (r : NodeResult) (v : Conformance)
      → verdict_on m p adapters contract i a ≡ v
      → judged m p adapters contract n i a v ≡ ok r
      → succeeded r ≡ true
      → Accepted i a
  unfolding agent_failed succeeded existing_artifacts strip
  judged-Accepted n i a r Conformance.conforms w e h =
      let f : agent_failed m p adapters contract a ≡ false = ground arith in
      (ground (arith, eq_ℤ_iff a.exit_status (pos 0)), ground arith, λ path s. ground arith)
  judged-Accepted n i a r (Conformance.breached t) w e h = absurd (ground arith)
  judged-Accepted n i a r (Conformance.raises x) w e h = absurd (ground arith)

  on_invoked-Accepted :
      (n : Node) (i : AgentNodeInputs) (x : Result Raised AgentResult) (r : NodeResult)
      → on_invoked m p adapters contract n i x ≡ ok r
      → succeeded r ≡ true
      → (a : AgentResult) × (x ≡ ok a) × Accepted i a
  unfolding succeeded
  on_invoked-Accepted n i (ok a) r e h = (a, refl, judged-Accepted n i a r _ refl e h)
  on_invoked-Accepted n i (raised timeout_error) r e h = absurd (ground arith)
  on_invoked-Accepted n i (raised (adapter_error x)) r e h = absurd (ground arith)
  on_invoked-Accepted n i (raised unicode_decode_error) r e h = absurd (ground arith)
  on_invoked-Accepted n i (raised assertion_error) r e h = absurd (ground arith)
  on_invoked-Accepted n i (raised runtime_error) r e h = absurd (ground arith)
  on_invoked-Accepted n i (raised file_not_found_error) r e h = absurd (ground arith)
  on_invoked-Accepted n i (raised cancelled_error) r e h = absurd (ground arith)
  on_invoked-Accepted n i (raised permission_error) r e h = absurd (ground arith)
  on_invoked-Accepted n i (raised os_error) r e h = absurd (ground arith)
  on_invoked-Accepted n i (raised value_error) r e h = absurd (ground arith)
  on_invoked-Accepted n i (raised type_error) r e h = absurd (ground arith)
  on_invoked-Accepted n i (raised key_error) r e h = absurd (ground arith)
  on_invoked-Accepted n i (raised keyboard_interrupt) r e h = absurd (ground arith)
  on_invoked-Accepted n i (raised system_exit) r e h = absurd (ground arith)

  caught-ok :
      (n : Node) (i : AgentNodeInputs) (x : Result Raised NodeResult) (r : NodeResult)
      → caught m p adapters contract n i x ≡ ok r
      → succeeded r ≡ true
      → x ≡ ok r
  unfolding succeeded
  caught-ok n i (ok y) r e h = e
  caught-ok n i (raised x) r e h = absurd (ground arith)

  succeeds_agent :
      (n : Node) (i : AgentNodeInputs) (r : NodeResult)
      → n.inputs ≡ Inputs.agent i
      → caught m p adapters contract n i (execute_agent_node m p adapters contract n i) ≡ ok r
      → succeeded r ≡ true
      → IsSuccess n
  unfolding execute_agent_node resolve
  succeeds_agent n i r k e h =
      let e' = caught-ok n i (execute_agent_node m p adapters contract n i) r e h in
      let (adapter, f, g) = >>=-eq-ok (resolve adapters i.adapter) _ e' in
      let (a, o, c) =
        on_invoked-Accepted n i (adapter (invocation_of m p adapters contract n i)) r g h in
      let found : get i.adapter adapters ≡ some adapter =
        ground (arith, Option-cases (get i.adapter adapters)) in
      IsSuccess.agent_conforms i adapter a k found o c.0 c.1 c.2

  succeeds_at :
      (n : Node) (r : NodeResult) (inputs : Inputs)
      → n.inputs ≡ inputs
      → execute_node m p adapters contract n ≡ ok r
      → succeeded r ≡ true
      → IsSuccess n
  unfolding execute_node
  succeeds_at n r (Inputs.shell i) k e h = succeeds_shell n i r _ k refl (ground arith) h
  succeeds_at n r (Inputs.human_gate i) k e h = absurd (ground arith)
  succeeds_at n r (Inputs.agent i) k e h = succeeds_agent n i r k (ground arith) h

  Accepted-judged :
      (n : Node) (i : AgentNodeInputs) (a : AgentResult) (r : NodeResult)
      → Accepted i a
      → caught m p adapters contract n i (on_invoked m p adapters contract n i (ok a)) ≡ ok r
      → succeeded r ≡ true
  unfolding agent_failed succeeded
  Accepted-judged n i a r c e =
      let f : agent_failed m p adapters contract a ≡ false = ground (arith, c.0, c.1) in
      elim (Option-cases i.output_schema) [
        | inl s ↦ ground arith
        | inr (path, s) ↦ ground (arith, c.2 path s)
      ]

  success_succeeds :
      (n : Node) (r : NodeResult)
      → IsSuccess n
      → execute_node m p adapters contract n ≡ ok r
      → succeeded r ≡ true
  unfolding execute_node execute_shell_node execute_agent_node resolve succeeded agent_failed
  success_succeeds n r (IsSuccess.shell_exit_zero i out err k s) e = ground arith
  success_succeeds n r (IsSuccess.agent_conforms i adapter a k g o x y z) e =
      let e' : caught m p adapters contract n i (on_invoked m p adapters contract n i (ok a))
          ≡ ok r =
        ground arith in
      Accepted-judged n i a r (x, y, z) e'

-- An Attempt's result is a success exactly when the shell command exited zero, or the agent did, with
-- no failure signalled by its adapter and with an output that its contract, if it has one, admits.
pub execute_node-succeeded_iff :
    (m : Machine) (p : Python) (adapters : Dict Adapter) (contract : String → Value → Conformance)
    (n : Node) (r : NodeResult)
    → execute_node m p adapters contract n ≡ ok r
    → (succeeded r ≡ true) ↔ IsSuccess m p adapters contract n
unfolding execute_node
execute_node-succeeded_iff m p adapters contract n r e = (
  λ h. succeeds_at m p adapters contract n r n.inputs refl e h,
  λ s. success_succeeds m p adapters contract n r s e,
)
