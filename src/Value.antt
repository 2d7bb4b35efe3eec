-- ===== src/Value.antt =====
-- The Python values that a Node's output holds: what `json.loads` returns.
use cli_agentic_workflow.Prelude.{
  ℕ, ◌-◌, ◌*◌, ◌^◌, suc, String, Bool, true, false, Option, none, some, ◌==◌, if◌then◌else◌, ℤ, pos,
  negsuc, eqb, eq_ℤ,
}

-- A float is `mantissa / 2 ^ exponent`, or an infinity, or NaN.
pub data Float : Type 0 where
  finite : (mantissa : ℤ) (exponent : ℕ) → Float
  infinity negative_infinity nan : Float

mutual
  pub data Value : Type 0 where
    null : Value
    bool : Bool → Value
    int : ℤ → Value
    float : Float → Value
    str : String → Value
    list : Items → Value
    dict : Fields → Value

  pub data Fields : Type 0 where
    end : Fields
    field : String → Value → Fields → Fields

  pub data Items : Type 0 where
    nil : Items
    cons : Value → Items → Items

-- A predicate's `value`: `str | int | bool`.
pub data Scalar : Type 0 where
  str : String → Scalar
  int : ℤ → Scalar
  bool : Bool → Scalar

abbrev pub is_bool : Value → Bool
is_bool (Value.bool b) = true
is_bool _ = false

abbrev pub is_bool_scalar : Scalar → Bool
is_bool_scalar (Scalar.bool b) = true
is_bool_scalar _ = false

abbrev pub same_bool : Bool → Bool → Bool
same_bool true b = b
same_bool false true = false
same_bool false false = true

-- n * 2 ^ e
abbrev pub shift_left : ℤ → ℕ → ℤ
shift_left (pos n) e = pos (n * 2 ^ e)
shift_left (negsuc n) e = negsuc (suc n * 2 ^ e - 1)

abbrev pub float_is : Float → ℤ → Bool
float_is (finite m e) n = eq_ℤ m (shift_left n e)
float_is _ n = false

-- True and False are 1 and 0.
abbrev pub of_bool : Bool → ℤ
of_bool true = pos 1
of_bool false = pos 0

-- Python's `a == b` of a value and a scalar. A bool is an int there, so `0 == False`.
unfoldable pub py_eq : Value → Scalar → Bool
py_eq (Value.bool a) (Scalar.bool b) = same_bool a b
py_eq (Value.bool a) (Scalar.int n) = eq_ℤ (of_bool a) n
py_eq (Value.int m) (Scalar.int n) = eq_ℤ m n
py_eq (Value.int m) (Scalar.bool b) = eq_ℤ m (of_bool b)
py_eq (Value.float x) (Scalar.int n) = float_is x n
py_eq (Value.float x) (Scalar.bool b) = float_is x (of_bool b)
py_eq (Value.str s) (Scalar.str t) = s == t
py_eq _ _ = false

-- v[k] of a dict, and `k in v`. (A key of a parsed JSON object is there once.)
unfoldable pub field_at : String → Fields → Option Value
field_at k end = none
field_at k (field j v d) = if j == k then some v else field_at k d

unfoldable pub count_items : Items → ℕ
count_items nil = 0
count_items (cons v xs) = suc (count_items xs)

-- xs[i] with 0 ≤ i
unfoldable pub item_at : ℕ → Items → Option Value
item_at i nil = none
item_at i (cons v xs) = if eqb i 0 then some v else item_at (i - 1) xs
