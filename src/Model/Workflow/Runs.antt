-- ===== src/Model/Workflow/Runs.antt =====
-- model.py: a Workflow that passed validation can be run in an order.
use cli_agentic_workflow.Model.Errors.{dependency_cycle, Checked}
use cli_agentic_workflow.Prelude.{
  arith, String, ok, refl, List, inr, raised, ◌≢◌, ◌>>=◌, [], ◌∷◌, inl, ◌≡◌,
}
use cli_agentic_workflow.Model.Workflow.{check_workflow}
use cli_agentic_workflow.Model.Node.{Node, Workflow}
use cli_agentic_workflow.Model.Order.{
  peel, remaining, find_cycle, needs_must_be_acyclic, nodes_at, execution_order,
}
use cli_agentic_workflow.Model.Workflow.Valid.{check_workflow-IsValid}
use cli_agentic_workflow.Model.Order.Sorted.{List-cases}
use cli_agentic_workflow.Model.Order.Ordered.{IsExecutionOrder, nodes_at-IsExecutionOrder}

raised_apart :
    (x : Checked (List String))
    → (◌>>=◌ {B = Unit {0}} x (λ cycle. raised (dependency_cycle cycle))) ≢ ok tt
raised_apart (ok c) h = absurd (ground arith)
raised_apart (raised e) h = absurd (ground arith)

pub accepted : (nodes : List Node) → needs_must_be_acyclic nodes ≡ ok tt → remaining nodes ≡ []
unfolding needs_must_be_acyclic
accepted nodes h = elim (List-cases (remaining nodes)) [
  | inl e ↦ e
  | inr (n, rest, e) ↦ absurd (ground (arith, raised_apart (find_cycle (n ∷ rest))))
]

-- A Workflow that passes validation has an execution order, which holds its nodes, each once, and each
-- after those that it needs.
pub check_workflow-IsExecutionOrder :
    (known : List String) (w : Workflow)
    → check_workflow known w ≡ ok tt
    → (ns : List Node) × (execution_order w ≡ ok ns) × IsExecutionOrder w.nodes ns
unfolding check_workflow execution_order
check_workflow-IsExecutionOrder known w h =
    let r = accepted w.nodes (ground arith) in
    (
      nodes_at w.nodes (peel w.nodes).ordered,
      rw (r, execution_order) refl,
      nodes_at-IsExecutionOrder w.nodes (check_workflow-IsValid known w h).distinct r,
    )
