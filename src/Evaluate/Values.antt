-- ===== src/Evaluate/Values.antt =====
-- predicate.py: the addressing and the comparison of values agree with their relations.
use cli_agentic_workflow.Prelude.{
  suc, ◌-◌, true, List, [], ◌∷◌, some, ◌≡◌, refl, inl, inr, arith, pos, negsuc, eq_ℤ_iff, eq_iff,
  Option-cases, subst,
}
use cli_agentic_workflow.Value.{Value, Scalar, finite, shift_left, field_at, item_at, count_items}
use cli_agentic_workflow.Model.Predicate.{PathStep}
use cli_agentic_workflow.Evaluate.{address_sub_path, equals_value, index_list}
use cli_agentic_workflow.Evaluate.Meaning.{Addresses, EqualTo}

pub address_sub_path_sound :
    (path : List PathStep) (v w : Value) → address_sub_path path v ≡ some w → Addresses path v w
unfolding address_sub_path index_list
address_sub_path_sound [] v w h = subst (λ u. Addresses [] v u) (ground arith) (Addresses.here v)
address_sub_path_sound (PathStep.key k ∷ path) (Value.dict d) w h =
    elim (Option-cases (field_at k d)) [
      | inl e ↦ absurd (ground arith)
      | inr (v, e) ↦ Addresses.key k path d v w e (address_sub_path_sound path v w (ground arith))
    ]
address_sub_path_sound (PathStep.index (pos i) ∷ path) (Value.list xs) w h =
    elim (Option-cases (item_at i xs)) [
      | inl e ↦ absurd (ground arith)
      | inr (v, e) ↦
          Addresses.index i path xs v w e (address_sub_path_sound path v w (ground arith))
    ]
address_sub_path_sound (PathStep.index (negsuc i) ∷ path) (Value.list xs) w h =
    elim (Option-cases (item_at (count_items xs - suc i) xs)) [
      | inl e ↦ absurd (ground arith)
      | inr (v, e) ↦
          Addresses.from_end i path xs v w (ground arith) e
            (address_sub_path_sound path v w (ground arith))
    ]
address_sub_path_sound _ _ w h = absurd (ground arith)

pub address_sub_path_complete :
    {path : List PathStep} {v w : Value} → Addresses path v w → address_sub_path path v ≡ some w
unfolding address_sub_path index_list
address_sub_path_complete (Addresses.here v) = refl
address_sub_path_complete (Addresses.key k path d v w e a) =
    ground (arith, address_sub_path_complete a)
address_sub_path_complete (Addresses.index i path xs v w e a) =
    ground (arith, address_sub_path_complete a)
address_sub_path_complete (Addresses.from_end i path xs v w lt e a) =
    ground (arith, address_sub_path_complete a)

pub equals_value_sound : (a : Value) (v : Scalar) → equals_value a (some v) ≡ true → EqualTo a v
unfolding equals_value
equals_value_sound (Value.str s) (Scalar.str t) h = EqualTo.str s t ((eq_iff s t).0 h)
equals_value_sound (Value.bool b) (Scalar.bool c) h = EqualTo.bool b c (ground arith)
equals_value_sound (Value.int m) (Scalar.int n) h = EqualTo.int m n ((eq_ℤ_iff m n).0 h)
equals_value_sound (Value.float (finite m e)) (Scalar.int n) h =
    EqualTo.whole m n e ((eq_ℤ_iff m (shift_left n e)).0 h)
equals_value_sound _ _ h = absurd (ground arith)

pub equals_value_complete : {a : Value} {v : Scalar} → EqualTo a v → equals_value a (some v) ≡ true
unfolding equals_value
equals_value_complete (EqualTo.str s t e) = (eq_iff s t).1 e
equals_value_complete (EqualTo.bool b c e) = ground arith
equals_value_complete (EqualTo.int m n e) = (eq_ℤ_iff m n).1 e
equals_value_complete (EqualTo.whole m n e h) = (eq_ℤ_iff m (shift_left n e)).1 h
