-- ===== src/Model/Workflow.antt =====
-- model.py, lines 621-703: the validators of the whole Workflow.
pub mod Valid
pub mod Runs
use cli_agentic_workflow.Prelude.{
  String, List, [], ◌∷◌, Option, none, some, Bool, true, false, not, has, ok, raised, raise_if,
  ◌>>=◌, ◌>>◌, ltb,
}
use cli_agentic_workflow.Model.Errors.{
  Checked, no_nodes, duplicate_id, unknown_need, field_not_produced, concurrency_below_one,
}
use cli_agentic_workflow.Model.Text.{require_non_blank}
use cli_agentic_workflow.Model.Predicate.{PredicateField, PredicateRef}
use cli_agentic_workflow.Model.Node.{Node, Kind, Workflow, kind_of, ids, refs_of, check_node}
use cli_agentic_workflow.Model.Order.{by_id, needs_must_be_acyclic}

-- The loop of `_node_ids_must_be_unique`.
unfoldable pub check_unique_ids : List String → List Node → Checked (Unit {0})
check_unique_ids seen [] = ok tt
check_unique_ids seen (n ∷ nodes) =
    raise_if (has n.id seen) (duplicate_id n.id) >> check_unique_ids (n.id ∷ seen) nodes

unfoldable pub node_ids_must_be_unique : List Node → Checked (Unit {0})
unfolding check_unique_ids
node_ids_must_be_unique [] = raised no_nodes
node_ids_must_be_unique (n ∷ nodes) = check_unique_ids [] (n ∷ nodes)

unfoldable pub check_known : String → List String → List String → Checked (Unit {0})
check_known id known [] = ok tt
check_known id known (r ∷ needs) =
    raise_if (not (has r known)) (unknown_need id r) >> check_known id known needs

unfoldable pub needs_must_reference_known_nodes : List String → List Node → Checked (Unit {0})
unfolding check_known
needs_must_reference_known_nodes known [] = ok tt
needs_must_reference_known_nodes known (n ∷ nodes) =
    check_known n.id known n.needs >> needs_must_reference_known_nodes known nodes

-- `_PRODUCIBLE_FIELDS_FOR_KIND`
abbrev pub produces : Kind → PredicateField → Bool
produces Kind.shell PredicateField.structured_output = false
produces Kind.shell _ = true
produces Kind.agent _ = true
produces Kind.human_gate _ = false

-- A reference to a node that is not there produces nothing.
abbrev pub producible : Option Node → PredicateField → Bool
producible none field = false
producible (some n) field = produces (kind_of n.inputs) field

unfoldable pub check_refs_produced : List Node → String → List PredicateRef → Checked (Unit {0})
check_refs_produced nodes id [] = ok tt
check_refs_produced nodes id (r ∷ refs) =
    raise_if (not (producible (by_id nodes r.node) r.field)) (field_not_produced id r.node)
    >> check_refs_produced nodes id refs

unfoldable pub when_refs_must_match_dependency_kind : List Node → List Node → Checked (Unit {0})
unfolding check_refs_produced
when_refs_must_match_dependency_kind all [] = ok tt
when_refs_must_match_dependency_kind all (n ∷ nodes) =
    elim n.when [ none ↦ ok tt | some p ↦ refs_of p >>= check_refs_produced all n.id ]
    >> when_refs_must_match_dependency_kind all nodes

unfoldable pub check_nodes : List String → List Node → Checked (Unit {0})
check_nodes known [] = ok tt
check_nodes known (n ∷ nodes) = check_node known n >> check_nodes known nodes

-- `Workflow.model_validate`: the fields in their order, each with its validators in theirs.
unfoldable pub check_workflow : List String → Workflow → Checked (Unit {0})
check_workflow known w = do
  name ← require_non_blank w.name
  check_nodes known w.nodes
  node_ids_must_be_unique w.nodes
  needs_must_reference_known_nodes (ids w.nodes) w.nodes
  when_refs_must_match_dependency_kind w.nodes w.nodes
  needs_must_be_acyclic w.nodes
  raise_if (ltb w.concurrency 1) concurrency_below_one
