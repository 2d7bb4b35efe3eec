-- ===== src/Patterns.antt =====
-- patterns.py: the Pattern Expanders, which compile a pattern into plain nodes.
pub mod Edges
use cli_agentic_workflow.Prelude.{
  String, List, [], ◌∷◌, ◌++◌, Option, none, some, Bool, true, false, not, map, Result, ok, raised,
  raise_if, ◌>>=◌, ◌>>◌, is_some, ◌==◌, if◌then◌else◌,
}
use cli_agentic_workflow.Value.{Value}

-- The `kind` of a node dict, whatever an author wrote there.
pub data DictKind : Type 0 where
  agent : DictKind
  other : String → DictKind

-- A node dict: the keys that the expanders read or write, and the rest as it is. A key that is not
-- there is `none`; an expander writes `needs` only, with `None` for an id that is not there.
pub record NodeDict : Type 0 where
  pub id : Option String
  pub kind : Option DictKind
  pub needs : Option (List (Option String))
  pub when : Option Value
  pub join : Option Value
  pub rest : List (String × Value)

-- The refusals: which rule, and at which role of the pattern.
pub data Role : Type 0 where
  pipeline_step parallel_branch parallel_join classifier classify_branch classify_join : Role
  generator filter worker synthesize : Role

pub data PatternError : Type 0 where
  too_short : PatternError
  declares_needs no_when no_join_policy not_agent : Role → PatternError
  both_pattern_and_nodes not_a_mapping no_type : PatternError
  unknown_type : String → PatternError

abbrev pub Params : Type 0
Params = Result PatternError (Unit {0})

unfoldable pub reject_declared_needs : Role → NodeDict → Params
reject_declared_needs role n = raise_if (is_some n.needs) (declares_needs role)

unfoldable pub require_when : Role → NodeDict → Params
require_when role n = raise_if (not (is_some n.when)) (no_when role)

unfoldable pub require_join_policy : Role → NodeDict → Params
require_join_policy role n = raise_if (not (is_some n.join)) (no_join_policy role)

abbrev is_agent : Option DictKind → Bool
is_agent (some DictKind.agent) = true
is_agent _ = false

unfoldable pub require_agent_kind : Role → NodeDict → Params
require_agent_kind role n = raise_if (not (is_agent n.kind)) (not_agent role)

-- A check of each node of a list, and of a node that may be absent.
abbrev pub each : (NodeDict → Params) → List NodeDict → Params
each check [] = ok tt
each check (n ∷ nodes) = check n >> each check nodes

abbrev pub if_present : (NodeDict → Params) → Option NodeDict → Params
if_present check none = ok tt
if_present check (some n) = check n

-- `Field(min_length=1)`
abbrev pub at_least_one : List NodeDict → Params
at_least_one [] = raised too_short
at_least_one (n ∷ nodes) = ok tt

-- The params of each pattern, as its params model types them.
pub data Pattern : Type 0 where
  pipeline : (steps : List NodeDict) → Pattern
  parallel : (branches : List NodeDict) (join : Option NodeDict) → Pattern
  classify_and_act :
      (entry : NodeDict) (branches : List NodeDict) (join : Option NodeDict) → Pattern
  generate_and_filter : (generators : List NodeDict) (sink : NodeDict) → Pattern
  fan_out_synthesis : (workers : List NodeDict) (sink : NodeDict) → Pattern

-- `params_model.model_validate`: the fields in their order, each with its validators.
unfoldable pub check_params : Pattern → Params
unfolding reject_declared_needs require_when require_join_policy require_agent_kind
check_params (Pattern.pipeline steps) =
    at_least_one steps >> each (reject_declared_needs pipeline_step) steps
check_params (Pattern.parallel branches join) =
    at_least_one branches
    >> (each (reject_declared_needs parallel_branch) branches
        >> if_present (reject_declared_needs parallel_join) join)
check_params (Pattern.classify_and_act entry branches join) = do
  reject_declared_needs classifier entry
  at_least_one branches
  each (reject_declared_needs classify_branch) branches
  each (require_when classify_branch) branches
  if_present (reject_declared_needs classify_join) join
  if_present (require_join_policy classify_join) join
check_params (Pattern.generate_and_filter generators sink) = do
  at_least_one generators
  each (reject_declared_needs generator) generators
  reject_declared_needs filter sink
check_params (Pattern.fan_out_synthesis workers sink) = do
  at_least_one workers
  each (reject_declared_needs worker) workers
  each (require_agent_kind worker) workers
  reject_declared_needs synthesize sink
  require_agent_kind synthesize sink

abbrev pub with_needs : List (Option String) → NodeDict → NodeDict
with_needs needs n = record n { needs = some needs }

-- `_expand_pipeline` after its first step: `previous` is the id of the step before.
unfoldable pub chain : Option String → List NodeDict → List NodeDict
chain previous [] = []
chain none (n ∷ steps) = n ∷ chain n.id steps
chain (some p) (n ∷ steps) = with_needs (some p ∷ []) n ∷ chain n.id steps

unfoldable pub expand_pipeline : List NodeDict → List NodeDict
unfolding chain
expand_pipeline = chain none

abbrev pub ids_of : List NodeDict → List (Option String)
ids_of nodes = map (λ n. n.id) nodes

-- `_fan_in`
unfoldable pub fan_in : List NodeDict → NodeDict → NodeDict
fan_in branches join = with_needs (ids_of branches) join

abbrev join_of : List NodeDict → Option NodeDict → List NodeDict
join_of branches none = []
join_of branches (some join) = fan_in branches join ∷ []

unfoldable pub expand_parallel : List NodeDict → Option NodeDict → List NodeDict
unfolding fan_in
expand_parallel branches join = branches ++ join_of branches join

unfoldable pub expand_classify_and_act : NodeDict → List NodeDict → Option NodeDict → List NodeDict
unfolding fan_in
expand_classify_and_act entry branches join =
    let branch_nodes = map (with_needs (entry.id ∷ [])) branches in
    entry ∷ (branch_nodes ++ join_of branch_nodes join)

unfoldable pub expand_generate_and_filter : List NodeDict → NodeDict → List NodeDict
unfolding fan_in
expand_generate_and_filter generators sink = generators ++ fan_in generators sink ∷ []

unfoldable pub expand_fan_out_synthesis : List NodeDict → NodeDict → List NodeDict
unfolding fan_in
expand_fan_out_synthesis workers sink = workers ++ fan_in workers sink ∷ []

unfoldable pub expand : Pattern → List NodeDict
unfolding expand_pipeline expand_parallel expand_classify_and_act expand_generate_and_filter
    expand_fan_out_synthesis
expand (Pattern.pipeline steps) = expand_pipeline steps
expand (Pattern.parallel branches join) = expand_parallel branches join
expand (Pattern.classify_and_act entry branches join) = expand_classify_and_act entry branches join
expand (Pattern.generate_and_filter generators sink) = expand_generate_and_filter generators sink
expand (Pattern.fan_out_synthesis workers sink) = expand_fan_out_synthesis workers sink

-- A raw workflow's `pattern` key: absent, no mapping, a mapping without a known `type`, or one whose
-- other keys fit the params model of its type.
pub data RawPattern : Type 0 where
  absent not_mapping untyped : RawPattern
  unknown : String → RawPattern
  typed : Pattern → RawPattern

-- `expand_pattern`: the nodes of the result, from `pattern` and `nodes`.
unfoldable pub expand_pattern :
    RawPattern → Option (List NodeDict) → Result PatternError (Option (List NodeDict))
unfolding check_params expand
expand_pattern RawPattern.absent nodes = ok nodes
expand_pattern _ (some nodes) = raised both_pattern_and_nodes
expand_pattern RawPattern.not_mapping none = raised not_a_mapping
expand_pattern RawPattern.untyped none = raised no_type
expand_pattern (RawPattern.unknown name) none = raised (unknown_type name)
expand_pattern (RawPattern.typed p) none = check_params p >> ok (some (expand p))
