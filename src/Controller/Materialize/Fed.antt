-- ===== src/Controller/Materialize/Fed.antt =====
-- controller.py: what the raw workflow of an iteration holds at the nodes that are fed.
use cli_agentic_workflow.Prelude.{
  String, List, [], ◌∷◌, Option, none, some, true, false, not, ◌==◌, has, keep, map, All, ok, ◌>>=◌,
  >>=-eq-ok, ◌≡◌, refl, arith, eq_iff, eq_refl, Option-cases, Bool-cases, inl, inr, if◌then◌else◌,
}
use cli_agentic_workflow.Value.{Value, Items, Fields, field_at}
use cli_agentic_workflow.Controller.Materialize.{
  Substitution, set_field, id_at, inputs_at, applicable, substitute_all, substituted,
  substitute_node, substitute_nodes, ids_in, missing_targets, refuse_missing,
  materialize_iteration_raw,
}

-- What a field comes to: the last substitution for it, or what it held.
abbrev pub latest : String → List Substitution → Option Value → Option Value
latest k [] old = old
latest k (s ∷ rest) old = latest k rest (if s.to_field == k then some s.value else old)

-- A node that no substitution names is as it was. A node that one names differs at its inputs only,
-- and there at the fields of the substitutions for it.
pub data IsFed (substitutions : List Substitution) (node node' : Value) : Type 0 where
  as_was :
      ((id : String) → id_at node ≡ some id → applicable substitutions id ≡ [])
      → node' ≡ node
      → IsFed substitutions node node'
  fed :
      (id : String) (d inputs d' inputs' : Fields)
      → id_at node ≡ some id
      → node ≡ Value.dict d
      → inputs_at d ≡ ok inputs
      → node' ≡ Value.dict d'
      → field_at "inputs" d' ≡ some (Value.dict inputs')
      → ((k : String) → ("inputs" == k) ≡ false → field_at k d' ≡ field_at k d)
      → ((k : String)
          → field_at k inputs' ≡ latest k (applicable substitutions id) (field_at k inputs))
      → IsFed substitutions node node'

pub data AllFed (substitutions : List Substitution) : Items → Items → Type 0 where
  nil : AllFed substitutions Items.nil Items.nil
  cons :
      {node node' : Value} {nodes nodes' : Items}
      → IsFed substitutions node node'
      → AllFed substitutions nodes nodes'
      → AllFed substitutions (Items.cons node nodes) (Items.cons node' nodes')

pub data IsMaterialized (base : Fields) (substitutions : List Substitution) (raw : Fields)
    : Type 0 where
  base_itself : substitutions ≡ [] → raw ≡ base → IsMaterialized base substitutions raw
  with_nodes :
      (nodes nodes' : Items)
      → field_at "nodes" base ≡ some (Value.list nodes)
      → field_at "nodes" raw ≡ some (Value.list nodes')
      → ((k : String) → ("nodes" == k) ≡ false → field_at k raw ≡ field_at k base)
      → AllFed substitutions nodes nodes'
      → All (λ s. has s.to_node (ids_in nodes) ≡ true) substitutions
      → IsMaterialized base substitutions raw

field_at-set_field :
    (k j : String) (v : Value) (d : Fields)
    → field_at k (set_field j v d) ≡ (if j == k then some v else field_at k d)
unfolding field_at set_field
field_at-set_field k j v Fields.end = ground (arith, eq_iff j k, eq_iff k j)
field_at-set_field k j v (Fields.field i w d) =
    ground (arith, eq_iff j k, eq_iff i j, eq_iff i k, eq_iff k j, field_at-set_field k j v d)

field_at-substitute_all :
    (k : String) (ss : List Substitution) (inputs : Fields)
    → field_at k (substitute_all ss inputs) ≡ latest k ss (field_at k inputs)
unfolding substitute_all
field_at-substitute_all k [] inputs = refl
field_at-substitute_all k (s ∷ rest) inputs =
    rw
      (
        field_at-substitute_all k rest (set_field s.to_field s.value inputs),
        field_at-set_field k s.to_field s.value inputs,
      )
      refl

field_at-same : (k : String) (v : Value) (d : Fields) → field_at k (set_field k v d) ≡ some v
field_at-same k v d = rw (field_at-set_field k k v d, eq_refl k) refl

field_at-other :
    (k j : String) (v : Value) (d : Fields)
    → (j == k) ≡ false
    → field_at k (set_field j v d) ≡ field_at k d
field_at-other k j v d h = rw (field_at-set_field k j v d, h) refl

substituted-IsFed :
    (ss : List Substitution) (chosen : List Substitution) (id : String) (node node' : Value)
    → id_at node ≡ some id
    → applicable ss id ≡ chosen
    → substituted chosen node ≡ ok node'
    → IsFed ss node node'
unfolding id_at
substituted-IsFed ss [] id node node' i a e = IsFed.as_was (λ j f. cc) cc
substituted-IsFed ss (s ∷ rest) id (Value.dict d) node' i a e =
    let r = >>=-eq-ok (inputs_at d) _ e in
    let inputs' = substitute_all (s ∷ rest) r.0 in
    let d' = set_field "inputs" (Value.dict inputs') d in
    let f : node' ≡ Value.dict d' = cc in
    IsFed.fed id d r.0 d' inputs' i refl r.1 f (field_at-same "inputs" (Value.dict inputs') d)
      (λ k h. field_at-other k "inputs" (Value.dict inputs') d h)
      (λ k. rw a (field_at-substitute_all k (s ∷ rest) r.0))
substituted-IsFed ss (s ∷ rest) id Value.null node' i a e = cc
substituted-IsFed ss (s ∷ rest) id (Value.bool x) node' i a e = cc
substituted-IsFed ss (s ∷ rest) id (Value.int x) node' i a e = cc
substituted-IsFed ss (s ∷ rest) id (Value.float x) node' i a e = cc
substituted-IsFed ss (s ∷ rest) id (Value.str x) node' i a e = cc
substituted-IsFed ss (s ∷ rest) id (Value.list x) node' i a e = cc

substitute_node-IsFed :
    (ss : List Substitution) (node node' : Value)
    → substitute_node ss node ≡ ok node'
    → IsFed ss node node'
unfolding substitute_node
substitute_node-IsFed ss node node' e = elim (Option-cases (id_at node)) [
  | inl i ↦ IsFed.as_was (λ id f. cc) (ground arith)
  | inr (id, i) ↦ substituted-IsFed ss (applicable ss id) id node node' i refl (ground arith)
]

substitute_nodes-AllFed :
    (ss : List Substitution) (nodes nodes' : Items)
    → substitute_nodes ss nodes ≡ ok nodes'
    → AllFed ss nodes nodes'
unfolding substitute_nodes
substitute_nodes-AllFed ss Items.nil nodes' e = let f : nodes' ≡ Items.nil = cc in rw f AllFed.nil
substitute_nodes-AllFed ss (Items.cons node nodes) nodes' e =
    let r = >>=-eq-ok (substitute_node ss node) _ e in
    let q = >>=-eq-ok (substitute_nodes ss nodes) _ r.2 in
    let f : nodes' ≡ Items.cons r.0 q.0 = cc in
    rw f (
      AllFed.cons (substitute_node-IsFed ss node r.0 r.1)
        (substitute_nodes-AllFed ss nodes q.0 q.1))

all_found :
    (found : List String) (ss : List Substitution)
    → keep (λ id. not (has id found)) (map (λ s. s.to_node) ss) ≡ []
    → All (λ s. has s.to_node found ≡ true) ss
all_found found [] e = tt
all_found found (s ∷ ss) e = elim (Bool-cases (has s.to_node found)) [
  | inl f ↦ (f, all_found found ss (ground arith))
  | inr f ↦ absurd (ground arith)
]

with_the_nodes :
    (base : Fields) (s : Substitution) (rest : List Substitution) (raw : Fields) (nodes : Items)
    (missing : List String)
    → field_at "nodes" base ≡ some (Value.list nodes)
    → missing_targets (s ∷ rest) nodes ≡ missing
    → (substitute_nodes (s ∷ rest) nodes >>= λ nodes'.
        refuse_missing missing (set_field "nodes" (Value.list nodes') base))
      ≡ ok raw
    → IsMaterialized base (s ∷ rest) raw
unfolding missing_targets
with_the_nodes base s rest raw nodes (x ∷ missing) i m e =
    let r = >>=-eq-ok (substitute_nodes (s ∷ rest) nodes) _ e in cc
with_the_nodes base s rest raw nodes [] i m e =
    let r = >>=-eq-ok (substitute_nodes (s ∷ rest) nodes) _ e in
    let f : raw ≡ set_field "nodes" (Value.list r.0) base = cc in
    rw f (
      IsMaterialized.with_nodes nodes r.0 i (field_at-same "nodes" _ base)
        (λ k h. field_at-other k "nodes" _ base h)
        (substitute_nodes-AllFed (s ∷ rest) nodes r.0 r.1) (all_found (ids_in nodes) (s ∷ rest) m))

materialized :
    (base : Fields) (s : Substitution) (rest : List Substitution) (raw : Fields)
    (held : Option Value)
    → field_at "nodes" base ≡ held
    → materialize_iteration_raw base (s ∷ rest) ≡ ok raw
    → IsMaterialized base (s ∷ rest) raw
unfolding materialize_iteration_raw
materialized base s rest raw (some (Value.list nodes)) i e =
    with_the_nodes base s rest raw nodes _ i refl (ground arith)
materialized base s rest raw none i e = absurd (ground arith)
materialized base s rest raw (some Value.null) i e = absurd (ground arith)
materialized base s rest raw (some (Value.bool x)) i e = absurd (ground arith)
materialized base s rest raw (some (Value.int x)) i e = absurd (ground arith)
materialized base s rest raw (some (Value.float x)) i e = absurd (ground arith)
materialized base s rest raw (some (Value.str x)) i e = absurd (ground arith)
materialized base s rest raw (some (Value.dict x)) i e = absurd (ground arith)

-- An iteration's raw workflow is the base one when nothing is fed forward. Otherwise every node that is
-- named is there, and each field of its inputs holds the last value fed to it, or what it held; its
-- other fields, the other nodes and the workflow's other fields are as they were.
pub materialize_iteration_raw-IsMaterialized :
    (base : Fields) (substitutions : List Substitution) (raw : Fields)
    → materialize_iteration_raw base substitutions ≡ ok raw
    → IsMaterialized base substitutions raw
unfolding materialize_iteration_raw
materialize_iteration_raw-IsMaterialized base [] raw e = IsMaterialized.base_itself refl cc
materialize_iteration_raw-IsMaterialized base (s ∷ rest) raw e =
    materialized base s rest raw _ refl e
