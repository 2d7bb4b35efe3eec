-- ===== src/Model/Node.antt =====
-- model.py: Nodes, the Workflow, and the validators that look at one Node.
use cli_agentic_workflow.Prelude.{
  ℕ, String, List, [], ◌∷◌, Option, none, some, Bool, true, false, not, has, ok, raised, raise_if,
  ◌>>=◌, ◌>>◌, is_some, eqb, map, ℤ, pos,
}
use cli_agentic_workflow.Value.{Float, finite, infinity}
use cli_agentic_workflow.Model.Errors.{
  Checked, duplicate_needs, needs_itself, when_not_in_needs, gate_with_retries, gate_with_timeout,
  unknown_adapter, assertion, timeout_not_positive,
}
use cli_agentic_workflow.Model.Text.{require_non_blank, unique_valid_env_names}
use cli_agentic_workflow.Model.Predicate.{Predicate, PredicateRef, check_predicate}
use cli_agentic_workflow.Model.Predicate.Fold.{leaf_refs}

pub data Kind : Type 0 where
  shell agent human_gate : Kind

pub record ShellNodeInputs : Type 0 where
  pub command : String
  pub env : Option (List String)

pub record AgentNodeInputs : Type 0 where
  pub adapter : String
  pub prompt : String
  pub args : List String
  pub env : Option (List String)
  pub output_schema : Option String
  pub fixture : Option String

pub record HumanGateNodeInputs : Type 0 where
  pub prompt : Option String

pub data Inputs : Type 0 where
  shell : ShellNodeInputs → Inputs
  agent : AgentNodeInputs → Inputs
  human_gate : HumanGateNodeInputs → Inputs

-- The node-level `kind` names the inputs model (`_INPUTS_MODEL_FOR_KIND`), so it is read off them.
abbrev pub kind_of : Inputs → Kind
kind_of (Inputs.shell i) = Kind.shell
kind_of (Inputs.agent i) = Kind.agent
kind_of (Inputs.human_gate i) = Kind.human_gate

pub data Join : Type 0 where
  all any : Join

pub record Node : Type 0 where
  pub id : String
  pub inputs : Inputs
  pub needs : List String
  pub when : Option Predicate
  pub join : Join
  pub retries : ℕ
  pub timeout : Option Float

-- A negative `concurrency` is refused as 0 is, so ℕ serves.
pub record Workflow : Type 0 where
  pub name : String
  pub version : ℤ
  pub nodes : List Node
  pub concurrency : ℕ

abbrev pub ids : List Node → List String
ids nodes = map (λ n. n.id) nodes

abbrev pub is_gate : Node → Bool
is_gate n = elim n.inputs [ Inputs.human_gate i ↦ true | _ ↦ false ]

-- The field validators of the three inputs models; `known` are the names of the adapters.
unfoldable pub check_inputs : List String → Inputs → Checked (Unit {0})
check_inputs known (Inputs.shell i) = do
  command ← require_non_blank i.command
  env ← unique_valid_env_names i.env
  ok tt
check_inputs known (Inputs.agent i) = do
  adapter ← require_non_blank i.adapter
  raise_if (not (has i.adapter known)) (unknown_adapter i.adapter)
  prompt ← require_non_blank i.prompt
  env ← unique_valid_env_names i.env
  ok tt
check_inputs known (Inputs.human_gate i) = ok tt

-- `_needs_must_be_a_list_of_unique_ids`: the loop, with `seen`.
unfoldable pub check_unique_needs : List String → List String → Checked (Unit {0})
check_unique_needs seen [] = ok tt
check_unique_needs seen (entry ∷ needs) =
    raise_if (has entry seen) (duplicate_needs entry) >> check_unique_needs (entry ∷ seen) needs

unfoldable pub must_not_need_itself : Node → Checked (Unit {0})
must_not_need_itself n = raise_if (has n.id n.needs) (needs_itself n.id)

unfoldable pub check_refs_needed : Node → List PredicateRef → Checked (Unit {0})
check_refs_needed n [] = ok tt
check_refs_needed n (r ∷ refs) =
    raise_if (not (has r.node n.needs)) (when_not_in_needs n.id r.node) >> check_refs_needed n refs

-- `when.leaf_refs()`; the assertion in `fold` fails on no validated predicate.
abbrev pub refs_of : Predicate → Checked (List PredicateRef)
refs_of p = elim (leaf_refs p) [ none ↦ raised assertion | some refs ↦ ok refs ]

unfoldable pub when_refs_must_be_dependencies : Node → Checked (Unit {0})
unfolding check_refs_needed
when_refs_must_be_dependencies n = elim n.when [
  | none ↦ ok tt
  | some p ↦ refs_of p >>= check_refs_needed n
]

unfoldable pub human_gate_rejects_subprocess_fields : Node → Checked (Unit {0})
human_gate_rejects_subprocess_fields n = elim (is_gate n) [
  | false ↦ ok tt
  | true ↦
      raise_if (not (eqb n.retries 0)) (gate_with_retries n.id)
      >> raise_if (is_some n.timeout) (gate_with_timeout n.id)
]

abbrev check_when : Option Predicate → Checked (Unit {0})
check_when none = ok tt
check_when (some p) = check_predicate p

-- `Field(gt=0)`
unfoldable pub is_positive : Float → Bool
is_positive (finite (pos n) e) = not (eqb n 0)
is_positive infinity = true
is_positive _ = false

unfoldable pub check_timeout : Option Float → Checked (Unit {0})
unfolding is_positive
check_timeout none = ok tt
check_timeout (some t) = raise_if (not (is_positive t)) timeout_not_positive

-- The inputs are built first; then the fields in their order, then the model validators.
unfoldable pub check_node : List String → Node → Checked (Unit {0})
check_node known n = do
  check_inputs known n.inputs
  id ← require_non_blank n.id
  check_unique_needs [] n.needs
  check_when n.when
  check_timeout n.timeout
  must_not_need_itself n
  when_refs_must_be_dependencies n
  human_gate_rejects_subprocess_fields n
