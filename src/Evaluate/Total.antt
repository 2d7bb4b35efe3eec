-- ===== src/Evaluate/Total.antt =====
-- predicate.py: evaluation of a predicate that passed validation returns, and its result is the
-- truth of what the predicate says.
use cli_agentic_workflow.Prelude.{
  String, Bool, true, false, not, Option, none, some, ◌≡◌, refl, ◌⊎◌, inl, inr, arith, ok,
  Bool-cases, Option-cases, subst, ap, List, [], ◌∷◌, every, is_some,
}
use mathlib.Core.Logic.{⊎_elim}
use cli_agentic_workflow.Value.{Value, Scalar}
use cli_agentic_workflow.Model.Predicate.{
  PredicateField, PredicateOp, PredicateRef, Predicate, PredicateTuple, Predicates, PredicateOption,
  check_predicate, value_type_admissible_for_field,
}
use cli_agentic_workflow.Model.Predicate.Fold.{fold_each}
use cli_agentic_workflow.Model.Predicate.Shapes.{IsFormed, AreFormed, check_predicate_iff}
use cli_agentic_workflow.Evaluate.{
  Output, read_actual, address_field, equals_value, contains_value, compare_leaf, evaluate_leaf,
  evaluate_predicate, all_true, any_true, read_field, str_of, str_of_scalar,
}
use text.Mathlib.Text.{find?}
use cli_agentic_workflow.Evaluate.Meaning.{Reads, Compares, LeafHolds, Holds, AllHold, AnyHolds}
use cli_agentic_workflow.Evaluate.Values.{
  address_sub_path_sound, address_sub_path_complete, equals_value_sound, equals_value_complete,
}

-- The result is there, and it is the truth of `P`.
abbrev pub Decides : Option Bool → Type 0 → Type 0
Decides m P = (m ≡ some true) × P ⊎ (m ≡ some false) × (¬ P)

module _ (r : PredicateRef) (o : Output) where
  Reads-sound :
      (f : PredicateField) (a : Value) → r.field ≡ f → read_actual r (some o) ≡ some a → Reads r o a
  unfolding read_field address_field
  Reads-sound PredicateField.exit_status a f h = elim (Option-cases o.exit_status) [
    | inl e ↦ absurd (ground arith)
    | inr (n, e) ↦ subst (Reads r o) (ground arith) (Reads.exit_status n f e)
  ]
  Reads-sound PredicateField.stdout a f h = elim (Option-cases o.stdout) [
    | inl e ↦ absurd (ground arith)
    | inr (s, e) ↦ subst (Reads r o) (ground arith) (Reads.stdout s f e)
  ]
  Reads-sound PredicateField.structured_output a f h = elim (Option-cases o.structured_output) [
    | inl e ↦ absurd (ground arith)
    | inr (v, e) ↦
        Reads.structured_output v a f e (address_sub_path_sound r.path v a (ground arith))
  ]

  Reads-complete : {a : Value} → Reads r o a → read_actual r (some o) ≡ some a
  unfolding read_field address_field
  Reads-complete (Reads.exit_status n f e) = ground arith
  Reads-complete (Reads.stdout s f e) = ground arith
  Reads-complete (Reads.structured_output v w f e p) = ground (arith, address_sub_path_complete p)

-- What a comparison is on, in a validated leaf.
abbrev IsComparable : PredicateOp → Value → Scalar → Type 0
IsComparable op a v =
    (op ≡ PredicateOp.equals)
    ⊎ ((s : String) × (t : String) × (a ≡ Value.str s) × (v ≡ Scalar.str t))

string_scalar :
    (f : PredicateField) (v : Scalar)
    → f ≡ PredicateField.stdout
    → value_type_admissible_for_field f v ≡ true
    → (t : String) × (v ≡ Scalar.str t)
unfolding value_type_admissible_for_field
string_scalar f (Scalar.str t) e h = (t, refl)
string_scalar f (Scalar.int z) e h = absurd (ground arith)
string_scalar f (Scalar.bool b) e h = absurd (ground arith)

Reads-string :
    (r : PredicateRef) (o : Output) {a : Value}
    → r.field ≡ PredicateField.stdout
    → Reads r o a
    → (s : String) × (a ≡ Value.str s)
Reads-string r o f (Reads.stdout s e h) = (_, refl)
Reads-string r o f (Reads.exit_status n e h) = absurd (ground arith)
Reads-string r o f (Reads.structured_output v w e h p) = absurd (ground arith)

compared :
    (r : PredicateRef) (op : PredicateOp) (v : Scalar) (o : Output) (a : Value)
    → value_type_admissible_for_field r.field v ≡ true
    → (op ≡ PredicateOp.equals) ⊎ (r.field ≡ PredicateField.stdout)
    → Reads r o a
    → IsComparable op a v
compared r op v o a fits (inl e) reads = inl e
compared r op v o a fits (inr f) reads =
    let (s, e) = Reads-string r o f reads in
    let (t, g) = string_scalar r.field v f fits in inr (s, t, e, g)

Compares-sound :
    (op : PredicateOp) (a : Value) (v : Scalar)
    → IsComparable op a v
    → compare_leaf (some op) (some v) a ≡ some true
    → Compares op a v
unfolding compare_leaf contains_value str_of str_of_scalar
Compares-sound PredicateOp.equals a v c h =
    Compares.equals a v (equals_value_sound a v (ground arith))
Compares-sound PredicateOp.contains (Value.str s) (Scalar.str t) c h =
    Compares.contains s t (ground arith)
Compares-sound PredicateOp.contains a v (inl e) h = absurd (ground arith)
Compares-sound PredicateOp.contains a v (inr (s, t, e, g)) h = absurd (ground arith)

Compares-complete :
    {op : PredicateOp} {a : Value} {v : Scalar}
    → Compares op a v
    → compare_leaf (some op) (some v) a ≡ some true
unfolding compare_leaf contains_value str_of str_of_scalar
Compares-complete (Compares.equals a v e) = ground (arith, equals_value_complete e)
Compares-complete (Compares.contains s t e) = ground arith

compare_leaf_cases :
    (op : PredicateOp) (a : Value) (v : Scalar)
    → IsComparable op a v
    → (compare_leaf (some op) (some v) a ≡ some true)
      ⊎ (compare_leaf (some op) (some v) a ≡ some false)
unfolding compare_leaf contains_value str_of str_of_scalar
compare_leaf_cases PredicateOp.equals a v c = elim (Bool-cases (equals_value a (some v))) [
  | inl e ↦ inl (ap some e)
  | inr e ↦ inr (ap some e)
]
compare_leaf_cases PredicateOp.contains a v (inl e) = absurd (ground arith)
compare_leaf_cases PredicateOp.contains a v (inr (s, t, e, g)) =
    elim (Bool-cases (is_some (find? s t))) [
      | inl h ↦ inl (rw (e, g) (ap some h))
      | inr h ↦ inr (rw (e, g) (ap some h))
    ]

abbrev negation : Predicate → Predicate
negation p =
    Predicate.predicate none none none PredicateTuple.absent PredicateTuple.absent
      (PredicateOption.single p)

module _ (output_of : String → Option Output) where
  leaf_decides :
      (r : PredicateRef) (op : PredicateOp) (v : Scalar)
      → value_type_admissible_for_field r.field v ≡ true
      → (op ≡ PredicateOp.equals) ⊎ (r.field ≡ PredicateField.stdout)
      → Decides
          (evaluate_leaf output_of (record { ref = r; op = some op; value = some v }))
          (LeafHolds output_of r op v)
  unfolding evaluate_leaf
  leaf_decides r op v fits string = elim (Option-cases (output_of r.node)) [
    | inl e ↦ inr (ground arith, λ h. ground (arith, h.has_output))
    | inr (o, e) ↦ elim (Option-cases (read_actual r (some o))) [
      | inl e₁ ↦
          inr (ground arith, λ h. ground (arith, h.has_output, Reads-complete r h.output h.reads))
      | inr (a, e₁) ↦
          let reads = Reads-sound r o r.field a refl e₁ in
          let c = compared r op v o a fits string reads in
          elim (compare_leaf_cases op a v c) [
            | inl e₂ ↦ inl (
              ground arith,
              record {
                output = o;
                has_output = e;
                actual = a;
                reads = reads;
                compares = Compares-sound op a v c e₂;
              },
            )
            | inr e₂ ↦ inr (
              ground arith,
              λ h. ground (
                arith,
                h.has_output,
                Reads-complete r h.output h.reads,
                Compares-complete h.compares,
              ),
            )
          ]
    ]
  ]

  -- The results of a list of predicates: whether all hold, and whether one does.
  DecidesEach : Predicates → Type 0
  DecidesEach ps =
      (bs : List Bool) × (fold_each (evaluate_leaf output_of) all_true any_true not ps ≡ some bs)
      × Decides (some (all_true bs)) (AllHold output_of ps)
      × Decides (some (any_true bs)) (AnyHolds output_of ps)

  cons_decides :
      (p : Predicate) (ps : Predicates)
      → Decides (evaluate_predicate output_of p) (Holds output_of p)
      → DecidesEach ps
      → DecidesEach (Predicates.cons p ps)
  unfolding evaluate_predicate Holds DecidesEach
  cons_decides p ps (inl (e, h)) (bs, es, every, any) = (
    true ∷ bs,
    ground arith,
    ⊎_elim (λ d. inl (d.0, (h, d.1))) (λ d. inr (d.0, λ k. d.1 k.1)) every,
    inl (refl, inl h),
  )
  cons_decides p ps (inr (e, n)) (bs, es, every, any) = (
    false ∷ bs,
    ground arith,
    inr (refl, λ k. n k.0),
    ⊎_elim (λ d. inl (d.0, inr d.1)) (λ d. inr (d.0, λ k. ⊎_elim n d.1 k)) any,
  )

  not_decides :
      (p : Predicate)
      → Decides (evaluate_predicate output_of p) (Holds output_of p)
      → Decides (evaluate_predicate output_of (negation p)) (Holds output_of (negation p))
  unfolding evaluate_predicate Holds
  not_decides p (inl (e, h)) = inr (ground arith, λ n. n h)
  not_decides p (inr (e, n)) = inl (ground arith, n)

  mutual
    unfolding evaluate_predicate Holds DecidesEach evaluate_leaf

    decides :
        {p : Predicate} → IsFormed p → Decides (evaluate_predicate output_of p) (Holds output_of p)
    decides (IsFormed.leaf r op v valid fits string) = leaf_decides r op v fits string
    decides (IsFormed.all_of p ps f fs) =
        let (bs, e, every, any) = cons_decides p ps (decides f) (decides_each fs) in
        subst (λ k. Decides k (AllHold output_of (Predicates.cons p ps))) (ground arith) every
    decides (IsFormed.any_of p ps f fs) =
        let (bs, e, every, any) = cons_decides p ps (decides f) (decides_each fs) in
        subst (λ k. Decides k (AnyHolds output_of (Predicates.cons p ps))) (ground arith) any
    decides (IsFormed.not_ p f) = not_decides p (decides f)

    decides_each : {ps : Predicates} → AreFormed ps → DecidesEach ps
    decides_each AreFormed.nil = ([], refl, inl (refl, tt), inr (refl, λ h. h))
    decides_each (AreFormed.cons p ps f fs) = cons_decides p ps (decides f) (decides_each fs)

-- On a predicate that passed validation the evaluation raises nothing: it returns true where the
-- predicate holds of the upstream outputs, and false where it does not. A leaf holds where its Node
-- has an output, the output has a value at the field and the path (a `stdout` without its trailing
-- newlines), and that value compares: a bool equals no number, and a Node without output none.
pub evaluate_predicate_decides :
    (output_of : String → Option Output) (p : Predicate)
    → check_predicate p ≡ ok tt
    → Decides (evaluate_predicate output_of p) (Holds output_of p)
evaluate_predicate_decides output_of p h = decides output_of ((check_predicate_iff p).0 h)
