-- ===== src/Model/Predicate/Shapes.antt =====
-- The predicates that validation accepts, described by their shape.
use cli_agentic_workflow.Prelude.{
  true, false, [], Option, none, some, ◌≡◌, refl, ◌⊎◌, inl, inr, ◌↔◌, ok, >>=-eq-ok, arith,
}
use cli_agentic_workflow.Value.{Scalar}
use cli_agentic_workflow.Model.Text.{is_blank, require_non_blank}
use cli_agentic_workflow.Model.Predicate.{
  PredicateField, PredicateOp, PredicateRef, Predicate, PredicateTuple, Predicates, PredicateOption,
  check_ref, check_ref_option, has_flag, exactly_one_shape, check_predicate, check_tuple,
  check_each, check_option, value_type_admissible_for_field,
}

pub record IsValidRef (r : PredicateRef) : Type 0 where
  pub named : is_blank r.node ≡ false
  pub steps : has_flag r.path ≡ false
  pub addressed : (r.path ≡ []) ⊎ (r.field ≡ PredicateField.structured_output)

-- One shape, complete: a leaf with `ref`, `op` and `value`, or one combinator over at least one
-- predicate.
mutual
  pub data IsFormed : Predicate → Type 0 where
    leaf :
        (r : PredicateRef) (op : PredicateOp) (v : Scalar)
        → IsValidRef r
        → value_type_admissible_for_field r.field v ≡ true
        → (op ≡ PredicateOp.equals) ⊎ (r.field ≡ PredicateField.stdout)
        → IsFormed (
            Predicate.predicate
              (some r)
              (some op)
              (some v)
              PredicateTuple.absent
              PredicateTuple.absent
              PredicateOption.missing)
    all_of :
        (p : Predicate) (ps : Predicates)
        → IsFormed p
        → AreFormed ps
        → IsFormed (
            Predicate.predicate none none none
              (PredicateTuple.present (Predicates.cons p ps))
              PredicateTuple.absent
              PredicateOption.missing)
    any_of :
        (p : Predicate) (ps : Predicates)
        → IsFormed p
        → AreFormed ps
        → IsFormed (
            Predicate.predicate none none none PredicateTuple.absent
              (PredicateTuple.present (Predicates.cons p ps))
              PredicateOption.missing)
    not_ :
        (p : Predicate)
        → IsFormed p
        → IsFormed (
            Predicate.predicate none none none PredicateTuple.absent PredicateTuple.absent
              (PredicateOption.single p))

  pub data AreFormed : Predicates → Type 0 where
    nil : AreFormed Predicates.nil
    cons :
        (p : Predicate) (ps : Predicates)
        → IsFormed p
        → AreFormed ps
        → AreFormed (Predicates.cons p ps)

abbrev FormedTuple : PredicateTuple → Type 0
FormedTuple PredicateTuple.absent = Unit
FormedTuple (PredicateTuple.present ps) = AreFormed ps

abbrev FormedOption : PredicateOption → Type 0
FormedOption PredicateOption.missing = Unit
FormedOption (PredicateOption.single p) = IsFormed p

check_ref-IsValidRef : (r : PredicateRef) → check_ref r ≡ ok tt → IsValidRef r
unfolding check_ref require_non_blank
check_ref-IsValidRef r h = record {
  named = ground arith;
  steps = ground arith;
  addressed = ground arith;
}

IsValidRef-check_ref : (r : PredicateRef) → IsValidRef r → check_ref r ≡ ok tt
unfolding check_ref require_non_blank
IsValidRef-check_ref r h = ground arith

-- The eight fields of a predicate of one shape.
shape :
    (ref : Option PredicateRef) (op : Option PredicateOp) (value : Option Scalar)
    (all any : PredicateTuple) (neg : PredicateOption)
    → check_ref_option ref ≡ ok tt
    → FormedTuple all
    → FormedTuple any
    → FormedOption neg
    → exactly_one_shape (Predicate.predicate ref op value all any neg) ≡ ok tt
    → IsFormed (Predicate.predicate ref op value all any neg)
unfolding exactly_one_shape
shape (some r) (some PredicateOp.equals) (some v) PredicateTuple.absent PredicateTuple.absent
      PredicateOption.missing h _ _ _ e =
    IsFormed.leaf r PredicateOp.equals v (check_ref-IsValidRef r h) (ground arith) (inl refl)
shape (some r) (some PredicateOp.contains) (some v) PredicateTuple.absent PredicateTuple.absent
      PredicateOption.missing h _ _ _ e =
    IsFormed.leaf r PredicateOp.contains v (check_ref-IsValidRef r h) (ground arith)
      (inr (ground arith))
shape none none none (PredicateTuple.present (Predicates.cons p ps)) PredicateTuple.absent
      PredicateOption.missing h (AreFormed.cons _ _ f fs) _ _ e =
    IsFormed.all_of p ps f fs
shape none none none PredicateTuple.absent (PredicateTuple.present (Predicates.cons p ps))
      PredicateOption.missing h _ (AreFormed.cons _ _ f fs) _ e =
    IsFormed.any_of p ps f fs
shape none none none PredicateTuple.absent PredicateTuple.absent (PredicateOption.single p) h _ _ f
      e =
    IsFormed.not_ p f
shape _ _ _ _ _ _ h _ _ _ e = absurd (ground arith)

mutual
  unfolding check_predicate

  formed : (p : Predicate) → check_predicate p ≡ ok tt → IsFormed p
  formed (Predicate.predicate ref op value all any neg) h =
      let (_, r, h1) = >>=-eq-ok (check_ref_option ref) _ h in
      let (_, a, h2) = >>=-eq-ok (check_tuple all) _ h1 in
      let (_, b, h3) = >>=-eq-ok (check_tuple any) _ h2 in
      let (_, n, h4) = >>=-eq-ok (check_option neg) _ h3 in
      shape ref op value all any neg r (formed_tuple all a) (formed_tuple any b)
        (formed_option neg n) h4

  formed_tuple : (t : PredicateTuple) → check_tuple t ≡ ok tt → FormedTuple t
  formed_tuple PredicateTuple.absent h = tt
  formed_tuple (PredicateTuple.present ps) h = formed_each ps h

  formed_each : (ps : Predicates) → check_each ps ≡ ok tt → AreFormed ps
  formed_each Predicates.nil h = AreFormed.nil
  formed_each (Predicates.cons p ps) h =
      let (_, a, b) = >>=-eq-ok (check_predicate p) _ h in
      AreFormed.cons p ps (formed p a) (formed_each ps b)

  formed_option : (o : PredicateOption) → check_option o ≡ ok tt → FormedOption o
  formed_option PredicateOption.missing h = tt
  formed_option (PredicateOption.single p) h = formed p h

mutual
  unfolding check_predicate

  accepted : {p : Predicate} → IsFormed p → check_predicate p ≡ ok tt
  accepted (IsFormed.leaf r op v valid fits string) = ground (arith, IsValidRef-check_ref r valid)
  accepted (IsFormed.all_of p ps f fs) = ground (arith, accepted f, accepted_each fs)
  accepted (IsFormed.any_of p ps f fs) = ground (arith, accepted f, accepted_each fs)
  accepted (IsFormed.not_ p f) = ground (arith, accepted f)

  accepted_each : {ps : Predicates} → AreFormed ps → check_each ps ≡ ok tt
  accepted_each AreFormed.nil = refl
  accepted_each (AreFormed.cons p ps f fs) = ground (arith, accepted f, accepted_each fs)

-- Validation accepts a predicate exactly when it is a complete leaf, or one combinator over at
-- least one accepted predicate, with no other field given; a leaf's reference names a node, its
-- path has no bool and addresses `structured_output` only, its value has a type that its field can
-- have, and `contains` reads `stdout` only.
pub check_predicate_iff : (p : Predicate) → (check_predicate p ≡ ok tt) ↔ IsFormed p
check_predicate_iff p = (formed p, accepted)
