-- ===== src/Model/Predicate/Fold.antt =====
-- model.py: `Predicate.fold`, `leaf_refs` and `to_plan_dict`.
use cli_agentic_workflow.Prelude.{String, List, [], ◌∷◌, ◌++◌, Option, none, some}
use cli_agentic_workflow.Value.{Scalar}
use cli_agentic_workflow.Model.Predicate.{
  PredicateField, PredicateOp, PathStep, PredicateRef, Predicate, PredicateTuple, Predicates,
  PredicateOption, Leaf,
}

-- An assertion that fails ends the traversal: `none`.
abbrev pub and_then {ℓ κ} : {A : Type ℓ} {B : Type κ} → Option A → (A → Option B) → Option B
and_then none f = none
and_then (some a) f = f a

module _ {ℓ} {T : Type ℓ} (leaf : Leaf → Option T) (all_of any_of : List T → T) (not_ : T → T) where
  unfoldable mutual
    pub fold : Predicate → Option T
    fold (Predicate.predicate (some r) op value all any neg) =
        leaf (record { ref = r; op = op; value = value })
    fold (Predicate.predicate none op value (PredicateTuple.present ps) any neg) =
        and_then (fold_each ps) (λ ts. some (all_of ts))
    fold (Predicate.predicate none op value PredicateTuple.absent (PredicateTuple.present ps) neg) =
        and_then (fold_each ps) (λ ts. some (any_of ts))
    fold
          (Predicate.predicate none op value PredicateTuple.absent PredicateTuple.absent
            (PredicateOption.single p)) =
        and_then (fold p) (λ t. some (not_ t))
    fold
          (Predicate.predicate none op value PredicateTuple.absent PredicateTuple.absent
            PredicateOption.missing) =
        none

    pub fold_each : Predicates → Option (List T)
    fold_each Predicates.nil = some []
    fold_each (Predicates.cons p ps) =
        and_then (fold p) (λ t. and_then (fold_each ps) (λ ts. some (t ∷ ts)))

abbrev pub concat {ℓ} : {A : Type ℓ} → List (List A) → List A
concat [] = []
concat (xs ∷ xss) = xs ++ concat xss

unfoldable pub leaf_refs : Predicate → Option (List PredicateRef)
unfolding fold
leaf_refs = fold (λ l. some (l.ref ∷ [])) concat concat (λ refs. refs)

-- The plan form: the keys of the active shape. `path` is there only when it is not empty.
mutual
  pub data Plan : Type 0 where
    leaf :
        (node : String) (field : PredicateField) (path : Option (List PathStep))
        (op : Option PredicateOp) (value : Option Scalar)
        → Plan
    all_of any_of : Plans → Plan
    not_ : Plan → Plan

  pub data Plans : Type 0 where
    nil : Plans
    cons : Plan → Plans → Plans

abbrev pub plans : List Plan → Plans
plans [] = Plans.nil
plans (p ∷ ps) = Plans.cons p (plans ps)

abbrev path_key : List PathStep → Option (List PathStep)
path_key [] = none
path_key (s ∷ path) = some (s ∷ path)

unfoldable pub to_plan_dict : Predicate → Option Plan
unfolding fold
to_plan_dict =
    fold (λ l. some (Plan.leaf l.ref.node l.ref.field (path_key l.ref.path) l.op l.value))
      (λ ps. Plan.all_of (plans ps)) (λ ps. Plan.any_of (plans ps)) Plan.not_
