-- ===== src/Model/Predicate.antt =====
-- model.py, lines 239-529: the `when` predicates and their validation. `Fold` has their traversal.
pub mod Fold
pub mod Shapes
use cli_agentic_workflow.Prelude.{
  ℕ, String, List, [], ◌∷◌, ◌++◌, Option, none, some, Bool, true, false, not, ◌&&◌, ◌||◌, ℤ,
  is_some, length, eqb, if◌then◌else◌, ok, raised, raise_if, ◌>>=◌, ◌>>◌,
}
use cli_agentic_workflow.Value.{Scalar}
use cli_agentic_workflow.Model.Text.{require_non_blank}
use cli_agentic_workflow.Model.Errors.{
  ConfigError, Checked, path_step_is_bool, path_on_scalar_field, not_one_shape, leaf_without_op,
  op_on_combinator, leaf_without_value, value_never_matches, empty_all_of, empty_any_of,
  contains_on_non_string,
}

pub data PredicateField : Type 0 where
  stdout exit_status structured_output : PredicateField

pub data PredicateOp : Type 0 where
  equals contains : PredicateOp

-- A step is a key or an index. A bool is a Python int, so one may stand there until it is checked.
pub data PathStep : Type 0 where
  key : String → PathStep
  index : ℤ → PathStep
  flag : Bool → PathStep

pub record PredicateRef : Type 0 where
  pub node : String
  pub field : PredicateField
  pub path : List PathStep

-- The fields of the class, whichever of them are present.
mutual
  pub data Predicate : Type 0 where
    predicate :
        (ref : Option PredicateRef) (op : Option PredicateOp) (value : Option Scalar)
        (all_of any_of : PredicateTuple) (not_ : PredicateOption)
        → Predicate

  pub data PredicateTuple : Type 0 where
    absent : PredicateTuple
    present : Predicates → PredicateTuple

  pub data Predicates : Type 0 where
    nil : Predicates
    cons : Predicate → Predicates → Predicates

  pub data PredicateOption : Type 0 where
    missing : PredicateOption
    single : Predicate → PredicateOption

-- What the `leaf` callback of `fold` reads off its predicate.
pub record Leaf : Type 0 where
  pub ref : PredicateRef
  pub op : Option PredicateOp
  pub value : Option Scalar

abbrev pub has_tuple : PredicateTuple → Bool
has_tuple PredicateTuple.absent = false
has_tuple (PredicateTuple.present ps) = true

abbrev pub has_option : PredicateOption → Bool
has_option PredicateOption.missing = false
has_option (PredicateOption.single p) = true

-- `x is not None and len(x) == 0`
abbrev pub is_empty_tuple : PredicateTuple → Bool
is_empty_tuple (PredicateTuple.present Predicates.nil) = true
is_empty_tuple _ = false

abbrev pub is_structured : PredicateField → Bool
is_structured PredicateField.structured_output = true
is_structured _ = false

-- `_STRING_PREDICATE_FIELDS`
abbrev pub is_string_field : PredicateField → Bool
is_string_field PredicateField.stdout = true
is_string_field _ = false

abbrev pub is_contains : Option PredicateOp → Bool
is_contains (some PredicateOp.contains) = true
is_contains _ = false

unfoldable pub value_type_admissible_for_field : PredicateField → Scalar → Bool
value_type_admissible_for_field PredicateField.exit_status (Scalar.int n) = true
value_type_admissible_for_field PredicateField.exit_status _ = false
value_type_admissible_for_field PredicateField.stdout (Scalar.str s) = true
value_type_admissible_for_field PredicateField.stdout _ = false
value_type_admissible_for_field PredicateField.structured_output _ = true

abbrev pub has_flag : List PathStep → Bool
has_flag [] = false
has_flag (PathStep.flag b ∷ path) = true
has_flag (_ ∷ path) = has_flag path

abbrev pub is_nonempty : List PathStep → Bool
is_nonempty [] = false
is_nonempty (s ∷ path) = true

-- `PredicateRef`: the field validators of `node` and `path`, then the model validator.
unfoldable pub check_ref : PredicateRef → Checked (Unit {0})
check_ref r = do
  node ← require_non_blank r.node
  raise_if (has_flag r.path) path_step_is_bool
  raise_if (is_nonempty r.path && not (is_structured r.field)) path_on_scalar_field

pub data Shape : Type 0 where
  leaf all_of any_of not_ : Shape

abbrev keep_present : Shape → Bool → List Shape → List Shape
keep_present shape true rest = shape ∷ rest
keep_present shape false rest = rest

unfoldable pub present_shapes : Predicate → List Shape
present_shapes (Predicate.predicate ref op value all any neg) =
    keep_present Shape.leaf (is_some ref) (
      keep_present Shape.all_of (has_tuple all)
        (keep_present Shape.any_of (has_tuple any) (keep_present Shape.not_ (has_option neg) [])))

abbrev has_leaf : List Shape → Bool
has_leaf [] = false
has_leaf (Shape.leaf ∷ shapes) = true
has_leaf (_ ∷ shapes) = has_leaf shapes

-- `value` is given and of a type that the field of `ref` never has.
abbrev pub never_matches : Option PredicateRef → Option Scalar → Bool
never_matches (some r) (some v) = not (value_type_admissible_for_field r.field v)
never_matches _ _ = false

abbrev pub field_not_string : Option PredicateRef → Bool
field_not_string (some r) = not (is_string_field r.field)
field_not_string none = false

unfoldable pub exactly_one_shape : Predicate → Checked (Unit {0})
unfolding present_shapes
exactly_one_shape (Predicate.predicate ref op value all any neg) = do
  let present = present_shapes (Predicate.predicate ref op value all any neg)
  let is_leaf = has_leaf present
  raise_if (not (eqb (length present) 1)) not_one_shape
  raise_if (is_leaf && not (is_some op)) leaf_without_op
  raise_if (not is_leaf && (is_some op || is_some value)) op_on_combinator
  raise_if (is_leaf && not (is_some value)) leaf_without_value
  raise_if (is_leaf && never_matches ref value) value_never_matches
  raise_if (is_empty_tuple all) empty_all_of
  raise_if (is_empty_tuple any) empty_any_of
  raise_if (is_leaf && is_contains op && field_not_string ref) contains_on_non_string

abbrev pub check_ref_option : Option PredicateRef → Checked (Unit {0})
check_ref_option none = ok tt
check_ref_option (some r) = check_ref r

-- Validation of a predicate: its fields, in their order, then the model validator.
unfoldable mutual
  unfolding exactly_one_shape

  pub check_predicate : Predicate → Checked (Unit {0})
  check_predicate (Predicate.predicate ref op value all any neg) =
      check_ref_option ref
      >> (check_tuple all
          >> (check_tuple any
              >> (check_option neg
                  >> exactly_one_shape (Predicate.predicate ref op value all any neg))))

  pub check_tuple : PredicateTuple → Checked (Unit {0})
  check_tuple PredicateTuple.absent = ok tt
  check_tuple (PredicateTuple.present ps) = check_each ps

  pub check_each : Predicates → Checked (Unit {0})
  check_each Predicates.nil = ok tt
  check_each (Predicates.cons p ps) = check_predicate p >> check_each ps

  pub check_option : PredicateOption → Checked (Unit {0})
  check_option PredicateOption.missing = ok tt
  check_option (PredicateOption.single p) = check_predicate p
