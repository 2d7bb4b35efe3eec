-- ===== src/Controller/Materialize.antt =====
-- controller.py, lines 175-259: an iteration's raw workflow, with the values that are fed forward.
-- A raw workflow is the mapping that the YAML file holds.
pub mod Fed
use Prim.Native.String.{compare}
use Prim.Native.Nat.{Ordering}
use cli_agentic_workflow.Prelude.{
  String, List, [], ◌∷◌, Option, none, some, Bool, true, false, not, ◌==◌, has, keep, map, Result,
  ok, raised, ◌>>=◌, if◌then◌else◌,
}
use cli_agentic_workflow.Value.{Value, Items, Fields, field_at}

-- `ControllerError`, and what else leaves a Controller. `out_of_fuel` is none of the program's: it
-- says that a loop of the model was cut off.
pub data ControllerError : Type 0 where
  needs_nodes_workflow : ControllerError
  missing_target : String → ControllerError
  bad_inputs : ControllerError
  no_such_node : String → ControllerError
  no_run_group : ControllerError
  already_finished : ControllerError
  missing_run_dir : String → ControllerError
  assertion_error : ControllerError
  config_error : ControllerError
  run_raised : ControllerError
  out_of_fuel : ControllerError

pub record FeedbackSpec : Type 0 where
  pub to_node : String
  pub to_field : String
  pub from_field : String

-- `_Substitution`
pub record Substitution : Type 0 where
  pub to_node : String
  pub to_field : String
  pub value : Value

-- The fed-forward value; `None` is `none`.
unfoldable pub feedback_substitution : Option FeedbackSpec → Option Value → List Substitution
feedback_substitution none value = []
feedback_substitution (some f) none = []
feedback_substitution (some f) (some v) =
    record { to_node = f.to_node; to_field = f.to_field; value = v } ∷ []

-- `d[k] = v`
unfoldable pub set_field : String → Value → Fields → Fields
set_field k v Fields.end = Fields.field k v Fields.end
set_field k v (Fields.field j w d) =
    if j == k then Fields.field j v d else Fields.field j w (set_field k v d)

-- `node.get("id")`, where it is a string.
unfoldable pub id_at : Value → Option String
unfolding field_at
id_at (Value.dict d) = elim (field_at "id" d) [ some (Value.str s) ↦ some s | _ ↦ none ]
id_at _ = none

-- `dict` of a list: of pairs, each a list of a text and a value; the last of a key counts. (A pair may
-- also be a text of two characters, which is refused here.)
abbrev pub dict_of_pairs : Fields → Items → Result ControllerError Fields
dict_of_pairs d Items.nil = ok d
dict_of_pairs d
      (Items.cons (Value.list (Items.cons (Value.str k) (Items.cons v Items.nil))) pairs) =
    dict_of_pairs (set_field k v d) pairs
dict_of_pairs d (Items.cons _ pairs) = raised bad_inputs

-- `dict(node.get("inputs", {}))`. Whatever else `inputs` is makes `dict` raise.
unfoldable pub inputs_at : Fields → Result ControllerError Fields
unfolding set_field
inputs_at d = elim (field_at "inputs" d) [
  | none ↦ ok Fields.end
  | some (Value.dict i) ↦ ok i
  | some (Value.list pairs) ↦ dict_of_pairs Fields.end pairs
  | some (Value.str s) ↦ if s == "" then ok Fields.end else raised bad_inputs
  | some _ ↦ raised bad_inputs
]

-- `by_node[node_id]`
abbrev pub applicable : List Substitution → String → List Substitution
applicable substitutions id = keep (λ s. s.to_node == id) substitutions

unfoldable pub substitute_all : List Substitution → Fields → Fields
unfolding set_field
substitute_all [] inputs = inputs
substitute_all (s ∷ rest) inputs = substitute_all rest (set_field s.to_field s.value inputs)

abbrev pub substituted : List Substitution → Value → Result ControllerError Value
substituted [] node = ok node
substituted (s ∷ rest) (Value.dict d) = inputs_at d >>= λ inputs.
    ok (Value.dict (set_field "inputs" (Value.dict (substitute_all (s ∷ rest) inputs)) d))
substituted (s ∷ rest) node = ok node

unfoldable pub substitute_node : List Substitution → Value → Result ControllerError Value
unfolding id_at
substitute_node substitutions node = elim (id_at node) [
  | none ↦ ok node
  | some id ↦ substituted (applicable substitutions id) node
]

unfoldable pub substitute_nodes : List Substitution → Items → Result ControllerError Items
unfolding substitute_node
substitute_nodes substitutions Items.nil = ok Items.nil
substitute_nodes substitutions (Items.cons node nodes) =
    substitute_node substitutions node >>= λ node'.
    substitute_nodes substitutions nodes >>= λ nodes'. ok (Items.cons node' nodes')

-- The ids of the nodes that have one: `found` is those of them that are targets.
unfoldable pub ids_in : Items → List String
ids_in Items.nil = []
ids_in (Items.cons node nodes) = elim (id_at node) [
  | none ↦ ids_in nodes
  | some id ↦ id ∷ ids_in nodes
]

unfoldable pub missing_targets : List Substitution → Items → List String
unfolding ids_in
missing_targets substitutions nodes =
    keep (λ id. not (has id (ids_in nodes))) (map (λ s. s.to_node) substitutions)

-- `sorted(missing)[0]`
abbrev pub least : String → List String → String
least x [] = x
least x (y ∷ ys) = least (elim (compare y x) [ Ordering.lt ↦ y | _ ↦ x ]) ys

abbrev pub refuse_missing : List String → Fields → Result ControllerError Fields
refuse_missing [] raw = ok raw
refuse_missing (x ∷ missing) raw = raised (missing_target (least x missing))

-- `_materialize_iteration_raw`
unfoldable pub materialize_iteration_raw :
    Fields → List Substitution → Result ControllerError Fields
unfolding substitute_nodes missing_targets
materialize_iteration_raw base [] = ok base
materialize_iteration_raw base (s ∷ rest) = elim (field_at "nodes" base) [
  | some (Value.list nodes) ↦ substitute_nodes (s ∷ rest) nodes >>= λ nodes'.
      refuse_missing (missing_targets (s ∷ rest) nodes) (set_field "nodes" (Value.list nodes') base)
  | _ ↦ raised needs_nodes_workflow
]
