-- ===== src/Model/Order/Walked.antt =====
-- model.py: the walk of `_find_cycle` closes a cycle.
use cli_agentic_workflow.Prelude.{
  arith, ◌∙◌, has, ◌++◌, refl, ◌≡◌, inl, inr, ap, ◌∷◌, [], ==_cases, eq_iff, some, true, String,
  List, ℕ, ◌<◌, suc, subst, length, has-concat, length-append, false, All-append, All, Bool-cases,
  ◌+◌, ◌≤◌, zero, ok, eq_refl,
}
use cli_agentic_workflow.Model.Node.{Node, ids}
use cli_agentic_workflow.Model.Order.{by_id, drop_until, reverse_onto, first_need, walk, find_cycle}
use cli_agentic_workflow.Model.Workflow.Valid.{NoRepeats}
use cli_agentic_workflow.Model.Order.Drained.{tally-lower}
use cli_agentic_workflow.Executor.Ends.Tally.{tally, tally-length}

-- A node needs another.
abbrev pub Needs : List Node → String → String → Type 0
Needs nodes y x =
    (n : Node) × (by_id nodes y ≡ some n) × (has x n.needs ≡ true) × (has x (ids nodes) ≡ true)

-- Each id is needed by the one behind it.
abbrev pub IsChain : List Node → List String → Type 0
IsChain nodes [] = Unit
IsChain nodes (x ∷ []) = Unit
IsChain nodes (x ∷ y ∷ rest) = Needs nodes y x × IsChain nodes (y ∷ rest)

-- A chain from an id to itself.
pub record IsCycle (nodes : List Node) (c : List String) : Type 0 where
  pub id : String
  pub middle : List String
  pub closed : c ≡ id ∷ middle ++ id ∷ []
  pub chain : IsChain nodes c

-- Each id needs the one behind it.
abbrev IsWalk : List Node → List String → Type 0
IsWalk nodes [] = Unit
IsWalk nodes (x ∷ []) = Unit
IsWalk nodes (x ∷ y ∷ rest) = Needs nodes x y × IsWalk nodes (y ∷ rest)

reverse_onto-IsChain :
    (nodes : List Node) (a : String) (xs acc : List String)
    → IsWalk nodes (a ∷ xs)
    → IsChain nodes (a ∷ acc)
    → IsChain nodes (reverse_onto xs (a ∷ acc))
reverse_onto-IsChain nodes a [] acc w c = c
reverse_onto-IsChain nodes a (y ∷ ys) acc w c =
    reverse_onto-IsChain nodes y ys (a ∷ acc) w.1 (w.0, c)

reverse_onto-concat :
    (xs acc : List String) (x : String) → reverse_onto (xs ++ x ∷ []) acc ≡ x ∷ reverse_onto xs acc
reverse_onto-concat [] acc x = refl
reverse_onto-concat (y ∷ xs) acc x = reverse_onto-concat xs (y ∷ acc) x

reverse_onto-append :
    (xs acc ys : List String) → reverse_onto xs (acc ++ ys) ≡ reverse_onto xs acc ++ ys
reverse_onto-append [] acc ys = refl
reverse_onto-append (x ∷ xs) acc ys = reverse_onto-append xs (x ∷ acc) ys

-- From the first visit on.
drop_until-at :
    (nodes : List Node) (x : String) (path : List String)
    → has x path ≡ true
    → IsWalk nodes (path ++ x ∷ [])
    → (rest : List String) × (drop_until x path ≡ x ∷ rest) × IsWalk nodes (x ∷ rest ++ x ∷ [])
drop_until-at nodes x [] h w = absurd (ground arith)
drop_until-at nodes x (y ∷ []) h w = elim (==_cases y x) [
  | inl (t, e) ↦ ([], ground (arith, e), subst (λ v. IsWalk nodes (v ∷ x ∷ [])) e w)
  | inr (t, e) ↦ absurd (ground (arith, eq_iff x y))
]
drop_until-at nodes x (y ∷ z ∷ path) h w = elim (==_cases y x) [
  | inl (t, e) ↦
      (z ∷ path, ground (arith, e), subst (λ v. IsWalk nodes (v ∷ z ∷ path ++ x ∷ [])) e w)
  | inr (t, e) ↦
      let (rest, f, g) = drop_until-at nodes x (z ∷ path) (ground (arith, eq_iff x y)) w.1 in
      (rest, ground arith, g)
]

closes :
    (nodes : List Node) (x : String) (path : List String)
    → has x path ≡ true
    → IsWalk nodes (path ++ x ∷ [])
    → IsCycle nodes (reverse_onto (drop_until x path ++ x ∷ []) [])
closes nodes x path h w =
    let (rest, f, g) = drop_until-at nodes x path h w in
    rw f (record {
      id = x;
      middle = reverse_onto rest [];
      closed =
          reverse_onto-concat rest (x ∷ []) x
          ∙ ap (λ l. x ∷ l) (reverse_onto-append rest [] (x ∷ []));
      chain = reverse_onto-IsChain nodes x (rest ++ x ∷ []) [] g tt;
    })

length-tally :
    (nodes : List Node) (xs : List String)
    → NoRepeats xs
    → All (λ x. (n : Node) × (by_id nodes x ≡ some n)) xs
    → length xs ≤ tally (λ y. has y xs) nodes
length-tally nodes [] r k = omega arith
length-tally nodes (x ∷ xs) r k = omega (
  arith,
  length-tally nodes xs r.1 k.1,
  tally-lower (λ y. has y xs) (λ y. has y (x ∷ xs)) nodes x k.0.0 (λ y b. ground arith) k.0.1
      (ground (arith, eq_refl x)) r.0,
)

-- Every node needs a node.
abbrev pub IsClosed : List Node → Type 0
IsClosed nodes =
    (i : String) (n : Node)
    → by_id nodes i ≡ some n
    → (r : String) × (has r n.needs ≡ true) × (has r (ids nodes) ≡ true)

abbrev IsKnown : List Node → String → Type 0
IsKnown nodes x = (n : Node) × (by_id nodes x ≡ some n)

IsKnown-id : (nodes : List Node) (x : String) → has x (ids nodes) ≡ true → IsKnown nodes x
unfolding by_id
IsKnown-id [] x h = absurd (ground arith)
IsKnown-id (m ∷ nodes) x h = elim (==_cases m.id x) [
  | inl (t, e) ↦ (m, ground arith)
  | inr (t, e) ↦
      let (n, f) = IsKnown-id nodes x (ground (arith, eq_iff x m.id, eq_iff m.id x)) in
      (n, ground arith)
]

first_need-found :
    (nodes : List Node) (needs : List String) (r : String)
    → has r needs ≡ true
    → has r (ids nodes) ≡ true
    → (x : String) × (first_need nodes needs ≡ some x)
      × (has x needs ≡ true)
      × (has x (ids nodes) ≡ true)
unfolding first_need
first_need-found nodes [] r h k = absurd (ground arith)
first_need-found nodes (y ∷ needs) r h k = elim (Bool-cases (has y (ids nodes))) [
  | inl e ↦ (y, ground arith, ground (arith, eq_refl y), e)
  | inr e ↦
      let h' : has r needs ≡ true = elim (==_cases r y) [
        | inl (t, f) ↦ absurd (ground (arith, ap (λ z. has z (ids nodes)) f))
        | inr (t, f) ↦ ground arith
      ] in
      let (x, a, b, c) = first_need-found nodes needs r h' k in (x, ground arith, ground arith, c)
]

IsWalk-concat :
    (nodes : List Node) (path : List String) (x y : String)
    → IsWalk nodes (path ++ x ∷ [])
    → Needs nodes x y
    → IsWalk nodes ((path ++ x ∷ []) ++ y ∷ [])
IsWalk-concat nodes [] x y w n = (n, tt)
IsWalk-concat nodes (a ∷ []) x y w n = (w.0, (n, tt))
IsWalk-concat nodes (a ∷ b ∷ path) x y w n = (w.0, IsWalk-concat nodes (b ∷ path) x y w.1 n)

NoRepeats-concat :
    (xs : List String) (x : String) → NoRepeats xs → has x xs ≡ false → NoRepeats (xs ++ x ∷ [])
NoRepeats-concat [] x r h = (refl, tt)
NoRepeats-concat (y ∷ xs) x r h = (
  ground (arith, has-concat y x xs, eq_iff x y, eq_iff y x),
  NoRepeats-concat xs x r.1 (ground arith),
)

-- The walk ends at a cycle, as long as its fuel is more than the nodes that it has not seen.
walk-IsCycle :
    (nodes : List Node) (fuel : ℕ) (path : List String) (current : String)
    → IsClosed nodes
    → NoRepeats path
    → All (IsKnown nodes) path
    → IsKnown nodes current
    → IsWalk nodes (path ++ current ∷ [])
    → length nodes < fuel + length path
    → (c : List String) × (walk nodes fuel path current ≡ ok c) × IsCycle nodes c
unfolding walk
walk-IsCycle nodes zero path current closed r k known w h =
    absurd (omega (arith, h, length-tally nodes path r k, tally-length (λ y. has y path) nodes))
walk-IsCycle nodes (suc fuel) path current closed r k (n, e) w h =
    elim (Bool-cases (has current path)) [
      | inl f ↦ (
        reverse_onto (drop_until current path ++ current ∷ []) [],
        rw (f, walk) refl,
        closes nodes current path f w,
      )
      | inr f ↦
          let (y, a, b) = closed current n e in
          let (x, g, i, j) = first_need-found nodes n.needs y a b in
          let (c, eq, cycle) =
            walk-IsCycle nodes fuel (path ++ current ∷ []) x closed
              (NoRepeats-concat path current r f)
              (All-append (IsKnown nodes) path (current ∷ []) k ((n, e), tt)) (IsKnown-id nodes x j)
              (IsWalk-concat nodes path current x w (n, e, i, j))
              (omega (arith, length-append path (current ∷ []), h)) in
          (c, rw (f, e, g, walk) eq, cycle)
    ]

-- A graph in which every node needs a node has a cycle, and the walk finds it.
pub find_cycle-IsCycle :
    (n : Node) (rest : List Node)
    → IsClosed (n ∷ rest)
    → (c : List String) × (find_cycle (n ∷ rest) ≡ ok c) × IsCycle (n ∷ rest) c
unfolding find_cycle by_id
find_cycle-IsCycle n rest closed =
    walk-IsCycle (n ∷ rest) (suc (length (n ∷ rest))) [] n.id closed tt tt
      (n, ground (arith, eq_refl n.id)) tt (omega arith)
