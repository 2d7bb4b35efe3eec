-- ===== src/Examples/Graphs.antt =====
-- model.py: a graph with a cycle, and the theorem on it.
use cli_agentic_workflow.Model.Errors.{dependency_cycle}
use cli_agentic_workflow.Prelude.{◌∷◌, String, ok, [], List, ◌≡◌, none, raised, refl, ◌⊎◌}
use cli_agentic_workflow.Model.Node.{Inputs, Join, Node}
use cli_agentic_workflow.Model.Order.{
  dependents, indegrees, index_of, heappush, release, release_all, peel_loop, push_roots,
  start_peel, peel, by_id, remaining, first_need, walk, find_cycle, needs_must_be_acyclic, nodes_at,
  execution_order,
}
use cli_agentic_workflow.Model.Order.Walked.{IsCycle}
use cli_agentic_workflow.Model.Order.Cycles.{needs_must_be_acyclic-IsCycle}

abbrev shell_node : String → List String → Node
shell_node id needs = record {
  id = id;
  inputs = Inputs.shell (record { command = "true"; env = none });
  needs = needs;
  when = none;
  join = Join.all;
  retries = 0;
  timeout = none;
}

-- "a" is free; "b" and "c" need each other.
abbrev knotted : List Node
knotted = shell_node "b" ("a" ∷ "c" ∷ []) ∷ shell_node "a" [] ∷ shell_node "c" ("b" ∷ []) ∷ []

knotted_refused : needs_must_be_acyclic knotted ≡ raised (dependency_cycle ("b" ∷ "c" ∷ "b" ∷ []))
unfolding dependents indegrees index_of heappush release release_all peel_loop push_roots start_peel
    peel by_id remaining first_need walk find_cycle needs_must_be_acyclic nodes_at execution_order
knotted_refused = refl

needs_must_be_acyclic-IsCycle_example :
    ((needs_must_be_acyclic knotted ≡ ok tt) × ((c : List String) → ¬ IsCycle knotted c))
    ⊎ ((c : List String) × (needs_must_be_acyclic knotted ≡ raised (dependency_cycle c))
        × IsCycle knotted c)
needs_must_be_acyclic-IsCycle_example =
    needs_must_be_acyclic-IsCycle knotted (refl, (refl, (refl, tt)))
