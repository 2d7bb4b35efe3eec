-- ===== src/Evaluate/Local.antt =====
-- predicate.py: evaluation reads the outputs of the Nodes in `leaf_refs` only, and a value of a type
-- that validation refuses matches nothing.
use cli_agentic_workflow.Prelude.{
  String, Bool, not, Option, none, some, ◌≡◌, refl, inl, inr, arith, List, [], ◌∷◌, ◌++◌, All,
  Option-cases, subst,
}
use mathlib.Core.Path.{ap₂}
use cli_agentic_workflow.Model.Predicate.{
  PredicateRef, Predicate, PredicateTuple, Predicates, PredicateOption, Leaf,
}
use cli_agentic_workflow.Model.Predicate.Fold.{fold_each, leaf_refs, concat, and_then}
use cli_agentic_workflow.Evaluate.{Output, evaluate_leaf, evaluate_predicate, all_true, any_true}

module _ (f g : String → Option Output) where
  abbrev pub AgreeOn : List PredicateRef → Type 0
  AgreeOn = All (λ r. f r.node ≡ g r.node)

  AgreeOn-append : (xs ys : List PredicateRef) → AgreeOn (xs ++ ys) → AgreeOn xs × AgreeOn ys
  AgreeOn-append [] ys a = (tt, a)
  AgreeOn-append (x ∷ xs) ys a = let (b, c) = AgreeOn-append xs ys a.1 in ((a.0, b), c)

  evaluate_leaf_local :
      (l : Leaf) → f l.ref.node ≡ g l.ref.node → evaluate_leaf f l ≡ evaluate_leaf g l
  unfolding evaluate_leaf
  evaluate_leaf_local l e = rw (e, evaluate_leaf)

  abbrev refs_each : Predicates → Option (List (List PredicateRef))
  refs_each = fold_each (λ l. some (l.ref ∷ [])) concat concat (λ refs. refs)

  abbrev outcomes : (String → Option Output) → Predicates → Option (List Bool)
  outcomes output_of = fold_each (evaluate_leaf output_of) all_true any_true not

  concat_each :
      (ps : Predicates) (refs : List PredicateRef)
      → and_then (refs_each ps) (λ ts. some (concat ts)) ≡ some refs
      → AgreeOn refs
      → (rss : List (List PredicateRef)) × (refs_each ps ≡ some rss) × AgreeOn (concat rss)
  concat_each ps refs e a = elim (Option-cases (refs_each ps)) [
    | inl e₁ ↦ absurd (ground arith)
    | inr (rss, e₁) ↦ (rss, e₁, subst AgreeOn (ground arith) a)
  ]

  refs_of_not :
      (p : Predicate) (refs : List PredicateRef)
      → and_then (leaf_refs p) (λ rs. some rs) ≡ some refs
      → leaf_refs p ≡ some refs
  refs_of_not p refs e = ground arith

  split_each :
      (p : Predicate) (ps : Predicates) (rss : List (List PredicateRef))
      → refs_each (Predicates.cons p ps) ≡ some rss
      → AgreeOn (concat rss)
      → (rs : List PredicateRef) × (rest : List (List PredicateRef)) × (leaf_refs p ≡ some rs)
        × (refs_each ps ≡ some rest)
        × AgreeOn rs
        × AgreeOn (concat rest)
  unfolding leaf_refs
  split_each p ps rss e a = elim (Option-cases (leaf_refs p)) [
    | inl e₁ ↦ absurd (ground arith)
    | inr (rs, e₁) ↦ elim (Option-cases (refs_each ps)) [
      | inl e₂ ↦ absurd (ground arith)
      | inr (rest, e₂) ↦
          let (b, c) =
            AgreeOn-append rs (concat rest)
              (subst (λ l. AgreeOn (concat l)) {x = rss} {y = rs ∷ rest} (ground arith) a) in
          (rs, rest, e₁, e₂, b, c)
    ]
  ]

  outcomes_cons :
      (p : Predicate) (ps : Predicates)
      → evaluate_predicate f p ≡ evaluate_predicate g p
      → outcomes f ps ≡ outcomes g ps
      → outcomes f (Predicates.cons p ps) ≡ outcomes g (Predicates.cons p ps)
  unfolding evaluate_predicate
  outcomes_cons p ps e es =
      ap₂ {C = Option (List Bool)} (λ m ms. and_then m (λ t. and_then ms (λ ts. some (t ∷ ts)))) e
        es

  mutual
    unfolding evaluate_predicate leaf_refs

    local :
        (p : Predicate) (refs : List PredicateRef)
        → leaf_refs p ≡ some refs
        → AgreeOn refs
        → evaluate_predicate f p ≡ evaluate_predicate g p
    local (Predicate.predicate (some r) op value all any neg) refs e a =
        evaluate_leaf_local (record { ref = r; op = op; value = value })
          (subst AgreeOn {x = refs} {y = r ∷ []} (ground arith) a).0
    local (Predicate.predicate none op value (PredicateTuple.present ps) any neg) refs e a =
        let (rss, e₁, a₁) = concat_each ps refs e a in cc (local_each ps rss e₁ a₁)
    local (Predicate.predicate none op value PredicateTuple.absent (PredicateTuple.present ps) neg)
          refs e a =
        let (rss, e₁, a₁) = concat_each ps refs e a in cc (local_each ps rss e₁ a₁)
    local
          (Predicate.predicate none op value PredicateTuple.absent PredicateTuple.absent
            (PredicateOption.single p))
          refs e a =
        cc (local p refs (refs_of_not p refs e) a)
    local
          (Predicate.predicate none op value PredicateTuple.absent PredicateTuple.absent
            PredicateOption.missing)
          refs e a =
        refl

    local_each :
        (ps : Predicates) (rss : List (List PredicateRef))
        → refs_each ps ≡ some rss
        → AgreeOn (concat rss)
        → outcomes f ps ≡ outcomes g ps
    local_each Predicates.nil rss e a = refl
    local_each (Predicates.cons p ps) rss e a =
        let (rs, rss₁, e₁, e₂, a₁, a₂) = split_each p ps rss e a in
        outcomes_cons p ps (local p rs e₁ a₁) (local_each ps rss₁ e₂ a₂)

-- Two states of the upstream Nodes that agree on every Node of `leaf_refs` give one result: a
-- predicate reads nothing else, which is why its references must be dependencies.
pub evaluate_predicate_local :
    (f g : String → Option Output) (p : Predicate) (refs : List PredicateRef)
    → leaf_refs p ≡ some refs
    → AgreeOn f g refs
    → evaluate_predicate f p ≡ evaluate_predicate g p
evaluate_predicate_local f g p refs e a = local f g p refs e a
