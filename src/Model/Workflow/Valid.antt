-- ===== src/Model/Workflow/Valid.antt =====
-- model.py: what a Workflow that passed validation is.
use cli_agentic_workflow.Prelude.{
  ◌≤◌, String, List, [], ◌∷◌, none, some, true, false, has, length, ◌≡◌, refl, ok, arith, eq_iff,
  All,
}
use cli_agentic_workflow.Model.Text.{is_blank, require_non_blank}
use cli_agentic_workflow.Model.Predicate.{Predicate, PredicateRef}
use cli_agentic_workflow.Model.Predicate.Fold.{leaf_refs}
use cli_agentic_workflow.Model.Predicate.Shapes.{IsFormed, check_predicate_iff}
use cli_agentic_workflow.Model.Node.{
  Node, Workflow, ids, is_gate, check_node, check_unique_needs, check_refs_needed,
  must_not_need_itself, when_refs_must_be_dependencies, human_gate_rejects_subprocess_fields,
}
use cli_agentic_workflow.Model.Order.{by_id}
use cli_agentic_workflow.Model.Order.Degrees.{IsDistinct}
use cli_agentic_workflow.Model.Workflow.{
  check_unique_ids, node_ids_must_be_unique, check_known, needs_must_reference_known_nodes,
  producible, check_refs_produced, when_refs_must_match_dependency_kind, check_nodes,
  check_workflow,
}

-- No text stands twice.
abbrev pub NoRepeats : List String → Type 0
NoRepeats [] = Unit
NoRepeats (x ∷ xs) = (has x xs ≡ false) × NoRepeats xs

-- A Node by itself.
pub record IsValidNode (n : Node) : Type 0 where
  pub named : is_blank n.id ≡ false
  pub needs_once : NoRepeats n.needs
  pub not_itself : has n.id n.needs ≡ false
  pub formed : (p : Predicate) → n.when ≡ some p → IsFormed p
  -- A gate reads Nodes that it waits for.
  pub gated_on_needs :
      (p : Predicate) (refs : List PredicateRef)
      → n.when ≡ some p
      → leaf_refs p ≡ some refs
      → All (λ r. has r.node n.needs ≡ true) refs
  pub gate_plain : is_gate n ≡ true → (n.retries ≡ 0) × (n.timeout ≡ none)

-- And in its graph: its needs are Nodes, and what its gate reads is put out by their kinds.
pub record FitsIn (nodes : List Node) (n : Node) : Type 0 where
  pub needs_known : All (λ r. has r (ids nodes) ≡ true) n.needs
  pub produced :
      (p : Predicate) (refs : List PredicateRef)
      → n.when ≡ some p
      → leaf_refs p ≡ some refs
      → All (λ r. producible (by_id nodes r.node) r.field ≡ true) refs

pub record IsValid (w : Workflow) : Type 0 where
  pub named : is_blank w.name ≡ false
  pub distinct : IsDistinct w.nodes
  pub nonempty : 1 ≤ length w.nodes
  pub nodes : All IsValidNode w.nodes
  pub fits : All (FitsIn w.nodes) w.nodes
  pub concurrent : 1 ≤ w.concurrency

-- The loop with `seen` lets a text through once.
has-All-absent :
    (x : String) (seen xs : List String)
    → All (λ y. has y (x ∷ seen) ≡ false) xs
    → (has x xs ≡ false) × All (λ y. has y seen ≡ false) xs
has-All-absent x seen [] h = (refl, tt)
has-All-absent x seen (y ∷ xs) h =
    let (a, b) = has-All-absent x seen xs h.1 in
    (ground (arith, eq_iff y x, eq_iff x y), (ground arith, b))

unique_needs :
    (seen needs : List String)
    → check_unique_needs seen needs ≡ ok tt
    → NoRepeats needs × All (λ y. has y seen ≡ false) needs
unfolding check_unique_needs
unique_needs seen [] h = (tt, tt)
unique_needs seen (x ∷ needs) h =
    let (a, b) = unique_needs (x ∷ seen) needs (ground arith) in
    let (d, e) = has-All-absent x seen needs b in ((d, a), (ground arith, e))

unique_ids :
    (seen : List String) (nodes : List Node)
    → check_unique_ids seen nodes ≡ ok tt
    → IsDistinct nodes × All (λ y. has y seen ≡ false) (ids nodes)
unfolding check_unique_ids
unique_ids seen [] h = (tt, tt)
unique_ids seen (n ∷ nodes) h =
    let (a, b) = unique_ids (n.id ∷ seen) nodes (ground arith) in
    let (d, e) = has-All-absent n.id seen (ids nodes) b in ((d, a), (ground arith, e))

unique_nodes :
    (nodes : List Node)
    → node_ids_must_be_unique nodes ≡ ok tt
    → IsDistinct nodes × (1 ≤ length nodes)
unfolding node_ids_must_be_unique
unique_nodes [] h = absurd (ground arith)
unique_nodes (n ∷ nodes) h = ((unique_ids [] (n ∷ nodes) h).0, omega arith)

needed :
    (n : Node) (refs : List PredicateRef)
    → check_refs_needed n refs ≡ ok tt
    → All (λ r. has r.node n.needs ≡ true) refs
unfolding check_refs_needed
needed n [] h = tt
needed n (r ∷ refs) h = (ground arith, needed n refs (ground arith))

check_node-IsValidNode :
    (known : List String) (n : Node) → check_node known n ≡ ok tt → IsValidNode n
unfolding check_node require_non_blank must_not_need_itself when_refs_must_be_dependencies
    human_gate_rejects_subprocess_fields
check_node-IsValidNode known n h = record {
  named = ground arith;
  needs_once = (unique_needs [] n.needs (ground arith)).0;
  not_itself = ground arith;
  formed = λ p e. (check_predicate_iff p).0 (ground arith);
  gated_on_needs = λ p refs e f. needed n refs (ground arith);
  gate_plain = λ g. (ground arith, ground arith);
}

nodes-IsValidNode :
    (known : List String) (nodes : List Node)
    → check_nodes known nodes ≡ ok tt
    → All IsValidNode nodes
unfolding check_nodes
nodes-IsValidNode known [] h = tt
nodes-IsValidNode known (n ∷ nodes) h =
    (check_node-IsValidNode known n (ground arith), nodes-IsValidNode known nodes (ground arith))

known_needs :
    (id : String) (known needs : List String)
    → check_known id known needs ≡ ok tt
    → All (λ r. has r known ≡ true) needs
unfolding check_known
known_needs id known [] h = tt
known_needs id known (r ∷ needs) h = (ground arith, known_needs id known needs (ground arith))

produced_refs :
    (nodes : List Node) (id : String) (refs : List PredicateRef)
    → check_refs_produced nodes id refs ≡ ok tt
    → All (λ r. producible (by_id nodes r.node) r.field ≡ true) refs
unfolding check_refs_produced
produced_refs nodes id [] h = tt
produced_refs nodes id (r ∷ refs) h = (ground arith, produced_refs nodes id refs (ground arith))

all-FitsIn :
    (all nodes : List Node)
    → needs_must_reference_known_nodes (ids all) nodes ≡ ok tt
    → when_refs_must_match_dependency_kind all nodes ≡ ok tt
    → All (FitsIn all) nodes
unfolding needs_must_reference_known_nodes when_refs_must_match_dependency_kind
all-FitsIn all [] h k = tt
all-FitsIn all (n ∷ nodes) h k = (
  record {
    needs_known = known_needs n.id (ids all) n.needs (ground arith);
    produced = λ p refs e f. produced_refs all n.id refs (ground arith);
  },
  all-FitsIn all nodes (ground arith) (ground arith),
)

-- A Workflow that passes validation is valid: it has a name, a Node and a positive concurrency, its
-- ids are distinct, each Node is named, needs other Nodes of the Workflow once each, and gates
-- itself by a well-formed predicate on fields that its needs put out; and a human gate has neither
-- retries nor a timeout.
pub check_workflow-IsValid :
    (known : List String) (w : Workflow) → check_workflow known w ≡ ok tt → IsValid w
unfolding check_workflow require_non_blank
check_workflow-IsValid known w h = record {
  named = ground arith;
  distinct = (unique_nodes w.nodes (ground arith)).0;
  nonempty = (unique_nodes w.nodes (ground arith)).1;
  nodes = nodes-IsValidNode known w.nodes (ground arith);
  fits = all-FitsIn w.nodes w.nodes (ground arith) (ground arith);
  concurrent = ground arith;
}
