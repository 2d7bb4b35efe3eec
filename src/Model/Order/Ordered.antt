-- ===== src/Model/Order/Ordered.antt =====
-- model.py: the execution order is a topological order of all the nodes.
use cli_agentic_workflow.Prelude.{
  true, ◌≡◌, ◌++◌, ok, refl, List, inr, arith, ==_cases, has-All, eq_refl, ◌∷◌, Option-cases, has,
  keep, if◌then◌else◌, Bool-cases, All, some, none, ◌≤◌, not, [], inl, eq_iff, String,
}
use cli_agentic_workflow.Model.Node.{Node, Workflow, ids}
use cli_agentic_workflow.Model.Order.{
  present, count, peel, by_id, remaining, nodes_at, execution_order,
}
use cli_agentic_workflow.Model.Order.Peeled.{IsTopological, count_zero-has}
use cli_agentic_workflow.Model.Order.Sorted.{List-cases, peel-IsPeeled}
use cli_agentic_workflow.Model.Order.Degrees.{IsDistinct, pending-has}

-- Each node stands after the nodes that it needs; `before` is what stands before the list.
abbrev pub NeedsBefore : List Node → List String → List Node → Type 0
NeedsBefore nodes before [] = Unit
NeedsBefore nodes before (n ∷ ns) =
    ((r : String) → has r n.needs ≡ true → has r (ids nodes) ≡ true → has r before ≡ true)
    × NeedsBefore nodes (before ++ n.id ∷ []) ns

-- The nodes of the Workflow, each once, after what they need.
pub record IsExecutionOrder (nodes ns : List Node) : Type 0 where
  pub once : IsDistinct ns
  pub same_nodes : (i : String) → by_id ns i ≡ by_id nodes i
  pub needs_first : NeedsBefore nodes [] ns

id-by_id : (nodes : List Node) (i : String) (n : Node) → by_id nodes i ≡ some n → n.id ≡ i
unfolding by_id
id-by_id [] i n h = absurd (ground arith)
id-by_id (m ∷ nodes) i n h = elim (==_cases m.id i) [
  | inl (t, e) ↦ let same : m ≡ n = ground arith in rw (← same) e
  | inr (t, e) ↦ id-by_id nodes i n (ground arith)
]

abbrev AreKnown : List Node → List String → Type 0
AreKnown nodes = All (λ x. (n : Node) × (by_id nodes x ≡ some n))

pub has-present :
    (r : String) (known needs : List String)
    → has r needs ≡ true
    → has r known ≡ true
    → has r (present known needs) ≡ true
has-present r known [] h k = absurd (ground arith)
has-present r known (x ∷ needs) h k = elim (==_cases r x) [
  | inl (t, e) ↦
      let k' : has x known ≡ true = rw (← e) k in ground (arith, has-present r known needs)
  | inr (t, e) ↦ ground (arith, has-present r known needs)
]

nodes_at-NeedsBefore :
    (nodes : List Node) (before xs : List String)
    → AreKnown nodes xs
    → IsTopological nodes before xs
    → NeedsBefore nodes before (nodes_at nodes xs)
unfolding nodes_at
nodes_at-NeedsBefore nodes before [] k t = tt
nodes_at-NeedsBefore nodes before (x ∷ xs) ((n, e), k) t =
    rw (e, nodes_at, id-by_id nodes x n e)
      (
        λ r h i.
            pending-has (λ y. has y before) r (present (ids nodes) n.needs)
              (has-present r (ids nodes) n.needs h i) (t.0 n e),
        nodes_at-NeedsBefore nodes (before ++ x ∷ []) xs k t.1,
      )

ids-nodes_at :
    (nodes : List Node) (xs : List String) → AreKnown nodes xs → ids (nodes_at nodes xs) ≡ xs
unfolding nodes_at
ids-nodes_at nodes [] k = refl
ids-nodes_at nodes (x ∷ xs) ((n, e), k) =
    rw (e, nodes_at, id-by_id nodes x n e, ids-nodes_at nodes xs k) refl

by_id-nodes_at :
    (nodes : List Node) (xs : List String) (i : String)
    → AreKnown nodes xs
    → by_id (nodes_at nodes xs) i ≡ (if has i xs then by_id nodes i else none)
unfolding nodes_at by_id
by_id-nodes_at nodes [] i k = refl
by_id-nodes_at nodes (x ∷ xs) i ((n, e), k) = elim (==_cases i x) [
  | inl (t, f) ↦
      let g : by_id nodes i ≡ some n = rw f e in
      ground (arith, id-by_id nodes x n e, eq_iff n.id i, by_id-nodes_at nodes xs i k)
  | inr (t, f) ↦ ground (arith, id-by_id nodes x n e, eq_iff n.id i, by_id-nodes_at nodes xs i k)
]

once-IsDistinct : (ns : List Node) → ((i : String) → count i (ids ns) ≤ 1) → IsDistinct ns
once-IsDistinct [] h = tt
once-IsDistinct (n ∷ ns) h = (
  count_zero-has n.id (ids ns) (ground (arith, h n.id, eq_refl n.id)),
  once-IsDistinct ns (λ i. ground (arith, h i)),
)

pub none_remaining :
    (ordered : List String) (nodes : List Node) (i : String) (n : Node)
    → keep (λ m. not (has m.id ordered)) nodes ≡ []
    → by_id nodes i ≡ some n
    → has i ordered ≡ true
unfolding by_id
none_remaining ordered [] i n r h = absurd (ground arith)
none_remaining ordered (m ∷ nodes) i n r h = elim (Bool-cases (has m.id ordered)) [
  | inr f ↦ absurd (ground arith)
  | inl f ↦ elim (==_cases m.id i) [
    | inl (t, e) ↦ rw (← e) f
    | inr (t, e) ↦ none_remaining ordered nodes i n (ground arith) (ground arith)
  ]
]

module _ (nodes : List Node) (d : IsDistinct nodes) where
  abbrev ordered : List String
  ordered = (peel nodes).ordered

  ordered-AreKnown : AreKnown nodes ordered
  ordered-AreKnown = has-All ordered λ x m. elim (Option-cases (by_id nodes x)) [
    | inr (n, e) ↦ (n, e)
    | inl e ↦ absurd (ground (arith, (peel-IsPeeled nodes d).known x e, count_zero-has x ordered))
  ]

  count-ordered : (i : String) → count i ordered ≤ 1
  count-ordered i = elim (Option-cases (by_id nodes i)) [
    | inl e ↦ ground (arith, (peel-IsPeeled nodes d).known i e)
    | inr (n, e) ↦ ground (arith, (peel-IsPeeled nodes d).placed i n e)
  ]

  same_nodes-ordered :
      remaining nodes ≡ [] → (i : String) → by_id (nodes_at nodes ordered) i ≡ by_id nodes i
  unfolding remaining
  same_nodes-ordered r i = elim (Option-cases (by_id nodes i)) [
    | inl e ↦ ground (arith, by_id-nodes_at nodes ordered i ordered-AreKnown)
    | inr (n, e) ↦ ground (
      arith,
      by_id-nodes_at nodes ordered i ordered-AreKnown,
      none_remaining ordered nodes i n r e,
    )
  ]

  pub nodes_at-IsExecutionOrder :
      remaining nodes ≡ [] → IsExecutionOrder nodes (nodes_at nodes ordered)
  nodes_at-IsExecutionOrder r = record {
    once =
        once-IsDistinct (nodes_at nodes ordered)
          (λ i. rw (ids-nodes_at nodes ordered ordered-AreKnown) (count-ordered i));
    same_nodes = same_nodes-ordered r;
    needs_first =
        nodes_at-NeedsBefore nodes [] ordered ordered-AreKnown (peel-IsPeeled nodes d).sorted;
  }

-- The execution order of a Workflow whose ids are distinct holds the nodes of the Workflow, each once,
-- and each after those that it needs.
pub execution_order-IsExecutionOrder :
    (w : Workflow) (ns : List Node)
    → IsDistinct w.nodes
    → execution_order w ≡ ok ns
    → IsExecutionOrder w.nodes ns
unfolding execution_order
execution_order-IsExecutionOrder w ns d e = elim (List-cases (remaining w.nodes)) [
  | inr (n, rest, r) ↦ absurd (ground arith)
  | inl r ↦
      let same : nodes_at w.nodes (peel w.nodes).ordered ≡ ns = ground arith in
      rw (← same) (nodes_at-IsExecutionOrder w.nodes d r)
]
