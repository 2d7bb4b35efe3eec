-- ===== src/Evaluate.antt =====
-- predicate.py: the run-time evaluation of a `when` predicate.
pub mod Meaning
pub mod Values
pub mod Total
pub mod Local
use Prim.Native.Char.{code}
use cli_agentic_workflow.Prelude.{
  ℕ, ◌-◌, ◌+◌, suc, String, List, [], ◌∷◌, Option, none, some, Bool, true, false, not, ◌&&◌, ◌||◌,
  ◌==◌, ℤ, pos, negsuc, every, exists_in, leb, ltb, eqb, is_some, if◌then◌else◌, zero,
}
use cli_agentic_workflow.Value.{
  Value, Items, Fields, Scalar, is_bool, is_bool_scalar, same_bool, py_eq, field_at, count_items,
  item_at,
}
use cli_agentic_workflow.Model.Predicate.{
  PredicateField, PredicateOp, PathStep, PredicateRef, Predicate, Leaf, is_nonempty,
}
use cli_agentic_workflow.Model.Predicate.Fold.{fold}
use text.Mathlib.Text.{find?}
use Prim.Native.Nat.{◌/◌, ◌%◌}
use Prim.Native.String.{◌++◌ as ◌<>◌}

-- A Node's normalized output, a dict whose keys are there or not.
pub record Output : Type 0 where
  pub exit_status : Option ℤ
  pub stdout : Option String
  pub stderr : Option String
  pub structured_output : Option Value
  pub artifacts : Option (List String)
  pub approved : Option Bool

-- `current[step]` for `-len(current) <= step < len(current)`, else `_ABSENT`.
unfoldable pub index_list : ℤ → Items → Option Value
unfolding count_items item_at
index_list (pos i) xs = item_at i xs
index_list (negsuc i) xs =
    if ltb i (count_items xs) then item_at (count_items xs - suc i) xs else none

-- One step of `_address_sub_path`. `none` is `_ABSENT`.
unfoldable pub address_step : PathStep → Value → Option Value
unfolding field_at index_list
address_step (PathStep.key k) (Value.dict d) = field_at k d
address_step (PathStep.index i) (Value.list xs) = index_list i xs
address_step (PathStep.flag b) current = none
address_step step current = none

unfoldable pub address_sub_path : List PathStep → Value → Option Value
unfolding address_step
address_sub_path [] current = some current
address_sub_path (step ∷ path) current = elim (address_step step current) [
  | none ↦ none
  | some v ↦ address_sub_path path v
]

-- `actual.rstrip("\n")`
unfoldable pub rstrip_newlines : String → String
rstrip_newlines String.[] = String.[]
rstrip_newlines (String.◌∷◌ c s) =
    let rest = rstrip_newlines s in
    if eqb (code c) 0x0a && rest == String.[] then String.[] else String.◌∷◌ c rest

-- `output.get(field)`, if `field in output`.
unfoldable pub read_field : PredicateField → Output → Option Value
read_field PredicateField.exit_status o = elim o.exit_status [
  | none ↦ none
  | some n ↦ some (Value.int n)
]
read_field PredicateField.stdout o = elim o.stdout [ none ↦ none | some s ↦ some (Value.str s) ]
read_field PredicateField.structured_output o = o.structured_output

-- The sub-path, and the trailing newlines that a comparison on `stdout` takes off.
unfoldable pub address_field : PredicateRef → Value → Option Value
unfolding address_sub_path rstrip_newlines
address_field r v = elim r.field [
  | PredicateField.structured_output ↦ address_sub_path r.path v
  | PredicateField.stdout ↦ elim v [
    | Value.str s ↦ some (Value.str (rstrip_newlines s))
    | w ↦ some w
  ]
  | PredicateField.exit_status ↦ some v
]

unfoldable pub equals_value : Value → Option Scalar → Bool
unfolding py_eq
equals_value v none = elim v [ Value.null ↦ true | _ ↦ false ]
equals_value v (some s) = (same_bool (is_bool v) (is_bool_scalar s)) && py_eq v s

abbrev text_at : List String → ℕ → String
text_at [] n = ""
text_at (s ∷ rest) zero = s
text_at (s ∷ rest) (suc n) = text_at rest n

abbrev digit : ℕ → String
digit = text_at ("0" ∷ "1" ∷ "2" ∷ "3" ∷ "4" ∷ "5" ∷ "6" ∷ "7" ∷ "8" ∷ "9" ∷ [])

-- The decimal digits of `n`, which are fewer than `n + 1`, the fuel.
unfoldable pub decimal : ℕ → ℕ → String
decimal zero n = ""
decimal (suc fuel) n = elim (ltb n 10) [
  | true ↦ digit n
  | false ↦ decimal fuel (n / 10) <> digit (n % 10)
]

abbrev str_of_int : ℤ → String
str_of_int (pos n) = decimal (suc n) n
str_of_int (negsuc n) = "-" <> decimal (suc (suc n)) (suc n)

abbrev str_of_bool : Bool → String
str_of_bool true = "True"
str_of_bool false = "False"

-- `str(actual)`. Of a float, a list or a dict it is Python's to say, and none here.
unfoldable pub str_of : Value → Option String
unfolding decimal
str_of Value.null = some "None"
str_of (Value.bool b) = some (str_of_bool b)
str_of (Value.int z) = some (str_of_int z)
str_of (Value.str s) = some s
str_of _ = none

-- `str(value)`
unfoldable pub str_of_scalar : Option Scalar → String
unfolding decimal
str_of_scalar none = "None"
str_of_scalar (some (Scalar.str s)) = s
str_of_scalar (some (Scalar.int z)) = str_of_int z
str_of_scalar (some (Scalar.bool b)) = str_of_bool b

-- `str(value) in str(actual)`, with none where the text of `actual` is not known. A validated
-- predicate asks it of the text in `stdout` only.
unfoldable pub contains_value : Value → Option Scalar → Option Bool
unfolding str_of str_of_scalar
contains_value v s = elim (str_of v) [
  | none ↦ none
  | some t ↦ some (is_some (find? t (str_of_scalar s)))
]

-- The comparison; `none` is the failed assertion that `op` is one of the two, or `contains_value`'s.
unfoldable pub compare_leaf : Option PredicateOp → Option Scalar → Value → Option Bool
unfolding equals_value contains_value
compare_leaf (some PredicateOp.equals) value actual = some (equals_value actual value)
compare_leaf (some PredicateOp.contains) value actual = contains_value actual value
compare_leaf none value actual = none

abbrev pub read_actual : PredicateRef → Option Output → Option Value
read_actual r none = none
read_actual r (some o) = elim (read_field r.field o) [ none ↦ none | some v ↦ address_field r v ]

unfoldable pub evaluate_leaf : (String → Option Output) → Leaf → Option Bool
unfolding read_field address_field compare_leaf
evaluate_leaf output_of l = elim (read_actual l.ref (output_of l.ref.node)) [
  | none ↦ some false
  | some actual ↦ compare_leaf l.op l.value actual
]

-- Python's `all` and `any` of the children's results.
abbrev pub all_true : List Bool → Bool
all_true = every (λ b. b)

abbrev pub any_true : List Bool → Bool
any_true = exists_in (λ b. b)

unfoldable pub evaluate_predicate : (String → Option Output) → Predicate → Option Bool
unfolding fold evaluate_leaf
evaluate_predicate output_of = fold (evaluate_leaf output_of) all_true any_true not
