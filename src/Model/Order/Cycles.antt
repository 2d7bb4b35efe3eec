-- ===== src/Model/Order/Cycles.antt =====
-- model.py: a graph is refused for a cycle that it has, and accepted only without one.
use cli_agentic_workflow.Model.Errors.{dependency_cycle}
use cli_agentic_workflow.Prelude.{
  ap, arith, ◌++◌, false, Bool-cases, ◌≡◌, refl, not, true, ◌==◌, String, inr, ℕ, has, ==_cases,
  if◌then◌else◌, ok, some, keep, List, inl, ◌∷◌, ◌⊎◌, has-concat, [], ◌<◌, sym, suc, ◌∙◌, raised,
  subst,
}
use cli_agentic_workflow.Model.Node.{Node, ids}
use cli_agentic_workflow.Model.Order.{present, peel, by_id, remaining, needs_must_be_acyclic}
use cli_agentic_workflow.Model.Order.Peeled.{IsTopological}
use cli_agentic_workflow.Model.Order.Sorted.{peel-IsPeeled, List-cases}
use cli_agentic_workflow.Model.Order.Drained.{remaining_need}
use cli_agentic_workflow.Model.Order.Walked.{Needs, IsChain, IsCycle, IsClosed, find_cycle-IsCycle}
use cli_agentic_workflow.Model.Order.Degrees.{IsDistinct, pending-has}
use cli_agentic_workflow.Model.Order.Ordered.{has-present, none_remaining}

module _ (ordered : List String) where
  abbrev outside : List Node → List Node
  outside = keep (λ n. not (has n.id ordered))

  by_id-outside :
      (nodes : List Node) (i : String) (n : Node)
      → by_id (outside nodes) i ≡ some n
      → (by_id nodes i ≡ some n) × (has i ordered ≡ false)
  unfolding by_id
  by_id-outside [] i n h = absurd (ground arith)
  by_id-outside (m ∷ nodes) i n h = elim (Bool-cases (has m.id ordered)) [
    | inl e ↦
        let (a, b) = by_id-outside nodes i n (ground arith) in
        elim (==_cases m.id i) [
          | inl (t, f) ↦ absurd (ground (arith, ap (λ x. has x ordered) f))
          | inr (t, f) ↦ (ground arith, b)
        ]
    | inr e ↦ elim (==_cases m.id i) [
      | inl (t, f) ↦ (ground arith, subst (λ x. has x ordered ≡ false) f e)
      | inr (t, f) ↦ let (a, b) = by_id-outside nodes i n (ground arith) in (ground arith, b)
    ]
  ]

  has-outside :
      (nodes : List Node) (r : String)
      → has r ordered ≡ false
      → has r (ids (outside nodes)) ≡ has r (ids nodes)
  has-outside [] r h = refl
  has-outside (m ∷ nodes) r h = elim (==_cases r m.id) [
    | inl (t, e) ↦
        let h' : has m.id ordered ≡ false = subst (λ x. has x ordered ≡ false) e h in
        ground (arith, has-outside nodes r h)
    | inr (t, e) ↦ ground (arith, has-outside nodes r h)
  ]

  has-outside_all :
      (nodes : List Node) (r : String)
      → has r (ids (outside nodes)) ≡ true
      → has r (ids nodes) ≡ true
  has-outside_all [] r h = absurd (ground arith)
  has-outside_all (m ∷ nodes) r h = ground (arith, has-outside_all nodes r)

  IsChain-outside :
      (nodes : List Node) (c : List String) → IsChain (outside nodes) c → IsChain nodes c
  IsChain-outside nodes [] h = tt
  IsChain-outside nodes (x ∷ []) h = tt
  IsChain-outside nodes (x ∷ y ∷ rest) ((n, e, m, k), h) = (
    (n, (by_id-outside nodes y n e).0, m, has-outside_all nodes x k),
    IsChain-outside nodes (y ∷ rest) h,
  )

remaining-IsClosed : (nodes : List Node) → IsDistinct nodes → IsClosed (remaining nodes)
unfolding remaining
remaining-IsClosed nodes d i n h =
    let (e, f) = by_id-outside (peel nodes).ordered nodes i n h in
    let (r, a, b, g) = remaining_need nodes i n d e f in
    (r, a, has-outside (peel nodes).ordered nodes r g ∙ b)

-- What remains is refused.
refused :
    (nodes : List Node) (n : Node) (rest : List Node)
    → IsDistinct nodes
    → remaining nodes ≡ n ∷ rest
    → (c : List String) × (needs_must_be_acyclic nodes ≡ raised (dependency_cycle c))
      × IsCycle nodes c
unfolding needs_must_be_acyclic remaining
refused nodes n rest d e =
    let (c, f, cycle) = find_cycle-IsCycle n rest (subst IsClosed e (remaining-IsClosed nodes d)) in
    (
      c,
      ground arith,
      record {
        id = cycle.id;
        middle = cycle.middle;
        closed = cycle.closed;
        chain =
            IsChain-outside (peel nodes).ordered nodes c
              (subst (λ ns. IsChain ns c) (sym e) cycle.chain);
      },
    )

nothing_remains : (nodes : List Node) → remaining nodes ≡ [] → needs_must_be_acyclic nodes ≡ ok tt
unfolding needs_must_be_acyclic
nothing_remains nodes e = ground arith

-- The place of an id in a list.
abbrev place : String → List String → ℕ
place x [] = 0
place x (y ∷ ys) = if x == y then 0 else suc (place x ys)

place-less :
    (nodes : List Node) (before xs : List String) (r x : String)
    → IsTopological nodes before xs
    → has x xs ≡ true
    → Needs nodes x r
    → (has r before ≡ true) ⊎ (place r xs < place x xs)
place-less nodes before [] r x t h n = absurd (ground arith)
place-less nodes before (y ∷ ys) r x t h (n, e, m, k) = elim (==_cases x y) [
  | inl (s, f) ↦ inl (
      pending-has (λ z. has z before) r (present (ids nodes) n.needs)
        (has-present r (ids nodes) n.needs m k) (t.0 n (subst (λ v. by_id nodes v ≡ some n) f e)))
  | inr (s, f) ↦ elim (place-less nodes (before ++ y ∷ []) ys r x t.1 (ground arith) (n, e, m, k)) [
    | inr l ↦ inr (ground arith)
    | inl l ↦ elim (==_cases r y) [
      | inl (u, g) ↦ inr (ground arith)
      | inr (u, g) ↦ inl (ground (arith, has-concat r y before))
    ]
  ]
]

module _ (nodes : List Node) (d : IsDistinct nodes) (r : remaining nodes ≡ []) where
  need-before :
      (y x : String) → Needs nodes y x → place x (peel nodes).ordered < place y (peel nodes).ordered
  unfolding remaining
  need-before y x (n, e, m, k) =
      elim (place-less nodes [] (peel nodes).ordered x y (peel-IsPeeled nodes d).sorted
        (none_remaining (peel nodes).ordered nodes y n r e) (n, e, m, k)) [
          | inl h ↦ absurd (ground arith)
          | inr h ↦ h
        ]

  chain-before :
      (x z : String) (middle : List String)
      → IsChain nodes (x ∷ middle ++ z ∷ [])
      → place x (peel nodes).ordered < place z (peel nodes).ordered
  chain-before x z [] c = need-before z x c.0
  chain-before x z (y ∷ middle) c = omega (arith, need-before y x c.0, chain-before y z middle c.1)

  pub no-IsCycle : (c : List String) → ¬ IsCycle nodes c
  no-IsCycle c cycle = absurd (
      omega (
        arith,
        chain-before cycle.id cycle.id cycle.middle
            (subst (IsChain nodes) cycle.closed cycle.chain),
      ))

-- Nodes with distinct ids are accepted when they have no cycle of needs, or refused for a cycle that they
-- have, which the error names.
pub needs_must_be_acyclic-IsCycle :
    (nodes : List Node)
    → IsDistinct nodes
    → ((needs_must_be_acyclic nodes ≡ ok tt) × ((c : List String) → ¬ IsCycle nodes c))
      ⊎ ((c : List String) × (needs_must_be_acyclic nodes ≡ raised (dependency_cycle c))
          × IsCycle nodes c)
needs_must_be_acyclic-IsCycle nodes d = elim (List-cases (remaining nodes)) [
  | inl e ↦ inl (nothing_remains nodes e, no-IsCycle nodes d e)
  | inr (n, rest, e) ↦ inr (refused nodes n rest d e)
]
