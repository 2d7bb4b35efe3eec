-- ===== src/Evaluate/Meaning.antt =====
-- predicate.py: what a `when` predicate says of the upstream outputs, as a statement, with no
-- reference to the order of evaluation.
use cli_agentic_workflow.Prelude.{
  ℕ, suc, ◌-◌, ◌<◌, String, Bool, true, List, [], ◌∷◌, Option, none, some, ◌≡◌, ◌⊎◌, ℤ, pos, negsuc,
  is_some,
}
use cli_agentic_workflow.Value.{
  Value, Items, Fields, Scalar, finite, shift_left, field_at, item_at, count_items,
}
use cli_agentic_workflow.Model.Predicate.{
  PredicateField, PredicateOp, PathStep, PredicateRef, Predicate, PredicateTuple, Predicates,
  PredicateOption,
}
use cli_agentic_workflow.Evaluate.{Output, rstrip_newlines}
use text.Mathlib.Text.{find?}

-- `w` stands in `v` at a path.
pub data Addresses : List PathStep → Value → Value → Type 0 where
  here : (v : Value) → Addresses [] v v
  key :
      (k : String) (path : List PathStep) (d : Fields) (v w : Value)
      → field_at k d ≡ some v
      → Addresses path v w
      → Addresses (PathStep.key k ∷ path) (Value.dict d) w
  index :
      (i : ℕ) (path : List PathStep) (xs : Items) (v w : Value)
      → item_at i xs ≡ some v
      → Addresses path v w
      → Addresses (PathStep.index (pos i) ∷ path) (Value.list xs) w
  from_end :
      (i : ℕ) (path : List PathStep) (xs : Items) (v w : Value)
      → i < count_items xs
      → item_at (count_items xs - suc i) xs ≡ some v
      → Addresses path v w
      → Addresses (PathStep.index (negsuc i) ∷ path) (Value.list xs) w

-- The value that a reference reads off an output.
pub data Reads (r : PredicateRef) (o : Output) : Value → Type 0 where
  exit_status :
      (n : ℤ)
      → r.field ≡ PredicateField.exit_status
      → o.exit_status ≡ some n
      → Reads r o (Value.int n)
  stdout :
      (s : String)
      → r.field ≡ PredicateField.stdout
      → o.stdout ≡ some s
      → Reads r o (Value.str (rstrip_newlines s))
  structured_output :
      (v w : Value)
      → r.field ≡ PredicateField.structured_output
      → o.structured_output ≡ some v
      → Addresses r.path v w
      → Reads r o w

-- Equal values: a bool is equal to a bool only.
pub data EqualTo : Value → Scalar → Type 0 where
  str : (s t : String) → s ≡ t → EqualTo (Value.str s) (Scalar.str t)
  bool : (b c : Bool) → b ≡ c → EqualTo (Value.bool b) (Scalar.bool c)
  int : (m n : ℤ) → m ≡ n → EqualTo (Value.int m) (Scalar.int n)
  whole : (m n : ℤ) (e : ℕ) → m ≡ shift_left n e → EqualTo (Value.float (finite m e)) (Scalar.int n)

pub data Compares : PredicateOp → Value → Scalar → Type 0 where
  equals : (a : Value) (v : Scalar) → EqualTo a v → Compares PredicateOp.equals a v
  contains :
      (s t : String)
      → is_some (find? s t) ≡ true
      → Compares PredicateOp.contains (Value.str s) (Scalar.str t)

-- The referenced Node has an output, the output has the value, and the value compares.
pub record LeafHolds (output_of : String → Option Output) (r : PredicateRef) (op : PredicateOp)
    (v : Scalar) : Type 0 where
  pub output : Output
  pub has_output : output_of r.node ≡ some output
  pub actual : Value
  pub reads : Reads r output actual
  pub compares : Compares op actual v

module _ (output_of : String → Option Output) where
  unfoldable mutual
    pub Holds : Predicate → Type 0
    Holds (Predicate.predicate (some r) (some op) (some v) all any neg) = LeafHolds output_of r op v
    Holds (Predicate.predicate none op value (PredicateTuple.present ps) any neg) = AllHold ps
    Holds
          (Predicate.predicate none op value PredicateTuple.absent
            (PredicateTuple.present ps)
            neg) =
        AnyHolds ps
    Holds
          (Predicate.predicate none op value PredicateTuple.absent PredicateTuple.absent
            (PredicateOption.single p)) =
        ¬ Holds p
    Holds _ = ⊥

    pub AllHold : Predicates → Type 0
    AllHold Predicates.nil = Unit
    AllHold (Predicates.cons p ps) = Holds p × AllHold ps

    pub AnyHolds : Predicates → Type 0
    AnyHolds Predicates.nil = ⊥
    AnyHolds (Predicates.cons p ps) = Holds p ⊎ AnyHolds ps
