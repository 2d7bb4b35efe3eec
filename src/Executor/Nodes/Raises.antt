-- ===== src/Executor/Nodes/Raises.antt =====
-- executor.py: what becomes of an exception that an agent Node's Attempt raises.
use cli_agentic_workflow.Agent.Machine.{
  Raised, timeout_error, cancelled_error, keyboard_interrupt, system_exit, Machine, Conformance,
  is_exception, Python, Adapter,
}
use cli_agentic_workflow.Prelude.{
  inl, refl, raised, get, Dict, ◌≢◌, inr, ok, ◌⊎◌, Bool-cases, Result, true, String, subst, some,
  false, ◌≡◌, arith,
}
use cli_agentic_workflow.Value.{Value}
use cli_agentic_workflow.Status.{FailureKind}
use cli_agentic_workflow.Model.Node.{AgentNodeInputs, Inputs, Node}
use cli_agentic_workflow.Executor.Outcome.{NodeResult, retryable}
use cli_agentic_workflow.Executor.Nodes.{
  invocation_of, on_invoked, execute_agent_node, caught, execute_node,
}
use cli_agentic_workflow.Agent.Registry.{resolve}

caught-raised :
    (m : Machine) (p : Python) (adapters : Dict Adapter) (contract : String → Value → Conformance)
    (n : Node) (i : AgentNodeInputs) (x : Result Raised NodeResult) (e : Raised)
    → caught m p adapters contract n i x ≡ raised e
    → is_exception e ≡ false
caught-raised m p adapters contract n i (ok y) e h = absurd (ground arith)
caught-raised m p adapters contract n i (raised y) e h = ground (arith, Bool-cases (is_exception y))

-- The classes that `except Exception` lets through: asyncio.CancelledError, KeyboardInterrupt and
-- SystemExit.
pub data IsBaseException : Raised → Type 0 where
  cancelled : IsBaseException cancelled_error
  interrupted : IsBaseException keyboard_interrupt
  exited : IsBaseException system_exit

base_exception-cases : (e : Raised) → (is_exception e ≡ true) ⊎ IsBaseException e
base_exception-cases cancelled_error = inr IsBaseException.cancelled
base_exception-cases keyboard_interrupt = inr IsBaseException.interrupted
base_exception-cases system_exit = inr IsBaseException.exited
base_exception-cases _ = inl refl

not_exception : {e : Raised} → IsBaseException e → is_exception e ≡ false
not_exception IsBaseException.cancelled = refl
not_exception IsBaseException.interrupted = refl
not_exception IsBaseException.exited = refl

-- What an Attempt comes to in which the adapter raises `e`: a TimeoutError is a timeout, which may be
-- tried again; another Exception is an error, which is not; the rest ends the Run.
pub data ComesTo (n : Node) : Raised → Result Raised NodeResult → Type 0 where
  timed_out :
      (r : NodeResult)
      → r.node_id ≡ n.id
      → r.failure_kind ≡ some FailureKind.timed_out
      → retryable r ≡ true
      → ComesTo n timeout_error (ok r)
  errored :
      (e : Raised) (r : NodeResult)
      → e ≢ timeout_error
      → ¬ IsBaseException e
      → r.node_id ≡ n.id
      → r.failure_kind ≡ some FailureKind.errored
      → retryable r ≡ false
      → ComesTo n e (ok r)
  propagates : (e : Raised) → IsBaseException e → ComesTo n e (raised e)

module _ (m : Machine) (p : Python) (adapters : Dict Adapter)
    (contract : String → Value → Conformance) (n : Node) (i : AgentNodeInputs) where
  timeout-or_other : (e : Raised) → (e ≡ timeout_error) ⊎ (e ≢ timeout_error)
  timeout-or_other timeout_error = inl refl
  timeout-or_other _ = inr (λ h. absurd (ground arith))

  on_invoked-other :
      (e : Raised) → e ≢ timeout_error → on_invoked m p adapters contract n i (raised e) ≡ raised e
  on_invoked-other timeout_error h = absurd (h refl)
  on_invoked-other _ h = refl

  caught-ComesTo :
      (e : Raised)
      → ComesTo n e
          (caught m p adapters contract n i (on_invoked m p adapters contract n i (raised e)))
  unfolding retryable
  caught-ComesTo e = elim (timeout-or_other e) [
    | inl h ↦ rw h (ComesTo.timed_out _ refl refl refl)
    | inr h ↦ rw (on_invoked-other e h) (elim (base_exception-cases e) [
      | inl x ↦
          rw x
            (ComesTo.errored e _ h (λ b. absurd (ground (arith, not_exception b))) refl refl refl)
      | inr b ↦ rw (not_exception b) (ComesTo.propagates e b)
    ])
  ]

-- What an agent Node's adapter raises decides the Attempt: a TimeoutError makes it timed out and
-- retryable; another Exception makes it errored and not retryable; CancelledError, KeyboardInterrupt
-- and SystemExit propagate. And nothing but those three leaves an agent Node's Attempt.
pub execute_node-raised :
    (m : Machine) (p : Python) (adapters : Dict Adapter) (contract : String → Value → Conformance)
    (n : Node) (i : AgentNodeInputs) (adapter : Adapter)
    → n.inputs ≡ Inputs.agent i
    → get i.adapter adapters ≡ some adapter
    → ((e : Raised)
        → adapter (invocation_of m p adapters contract n i) ≡ raised e
        → ComesTo n e (execute_node m p adapters contract n))
      × ((e : Raised) → execute_node m p adapters contract n ≡ raised e → IsBaseException e)
unfolding execute_node execute_agent_node resolve
execute_node-raised m p adapters contract n i adapter k g = (
  λ e h. subst (ComesTo n e) (ground arith) (caught-ComesTo m p adapters contract n i e),
  λ e h. elim (base_exception-cases e) [
    | inl x ↦ absurd (
        ground (
          arith,
          caught-raised m p adapters contract n i (execute_agent_node m p adapters contract n i) e,
        ))
    | inr b ↦ b
  ],
)
