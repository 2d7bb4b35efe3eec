-- ===== src/Model/Order.antt =====
-- model.py, lines 706-816: Kahn's algorithm, the cycle that it leaves, and the execution order.
pub mod Degrees
pub mod Release
pub mod Peeled
pub mod Sorted
pub mod Ordered
pub mod Drained
pub mod Walked
pub mod Cycles
use cli_agentic_workflow.Prelude.{
  ℕ, zero, suc, String, List, [], ◌∷◌, ◌++◌, Option, none, some, Bool, true, false, not, ◌==◌, has,
  keep, length, Dict, get, put, ℤ, pos, pred_ℤ, eq_ℤ, leb, if◌then◌else◌, ok, raised, ◌>>=◌,
}
use cli_agentic_workflow.Model.Node.{Node, Workflow, ids}
use cli_agentic_workflow.Model.Errors.{Checked, not_on_a_cycle, dependency_cycle, unorderable}

-- `[reference for reference in node.needs if reference in index_of]`
abbrev pub present : List String → List String → List String
present known needs = keep (λ r. has r known) needs

-- How often a text stands in a list.
abbrev pub count : String → List String → ℕ
count x [] = 0
count x (y ∷ ys) = if x == y then suc (count x ys) else count x ys

abbrev pub repeat_id : ℕ → String → List String → List String
repeat_id zero x rest = rest
repeat_id (suc n) x rest = x ∷ repeat_id n x rest

-- `dependents[x]`: each node, once for each time that it needs `x`, in declaration order.
unfoldable pub dependents : List Node → String → List String
dependents [] x = []
dependents (n ∷ nodes) x = repeat_id (count x n.needs) n.id (dependents nodes x)

-- The dict of in-degrees that the first loop fills.
unfoldable pub indegrees : List String → List Node → Dict ℤ
indegrees known [] = []
indegrees known (n ∷ nodes) = (n.id, pos (length (present known n.needs))) ∷ indegrees known nodes

-- `indegree[id] -= 1`
abbrev pub decrement : String → Dict ℤ → Dict ℤ
decrement x d = elim (get x d) [ none ↦ d | some z ↦ put x (pred_ℤ z) d ]

-- `for x in xs: indegree[x] -= 1`
abbrev pub decrement_all : List String → Dict ℤ → Dict ℤ
decrement_all [] d = d
decrement_all (x ∷ xs) d = decrement_all xs (decrement x d)

abbrev pub is_zero : Option ℤ → Bool
is_zero none = false
is_zero (some z) = eq_ℤ z (pos 0)

-- The position of an id, by which the heap is ordered.
unfoldable pub index_of : List Node → String → ℕ
index_of [] x = 0
index_of (n ∷ nodes) x = if n.id == x then 0 else suc (index_of nodes x)

-- `heapq.heappush` on the heap as a sorted list, of which `heappop` takes the head.
unfoldable pub heappush : ℕ × String → List (ℕ × String) → List (ℕ × String)
heappush e [] = e ∷ []
heappush e (h ∷ heap) = if leb e.0 h.0 then e ∷ h ∷ heap else h ∷ heappush e heap

pub record Peel : Type 0 where
  pub indegree : Dict ℤ
  pub ready : List (ℕ × String)
  pub ordered : List String

module _ (nodes : List Node) where
  -- The body of the inner `for`.
  unfoldable pub release : String → Peel → Peel
  release x s =
      let d = decrement x s.indegree in
      record s {
        indegree = d;
        ready = if is_zero (get x d) then heappush (index_of nodes x, x) s.ready else s.ready;
      }

  unfoldable pub release_all : List String → Peel → Peel
  unfolding release
  release_all [] s = s
  release_all (x ∷ xs) s = release_all xs (release x s)

  -- `while ready`, at most once for each node.
  unfoldable pub peel_loop : ℕ → Peel → Peel
  unfolding release_all
  peel_loop zero s = s
  peel_loop (suc fuel) s = elim s.ready [
    | [] ↦ s
    | e ∷ rest ↦ peel_loop fuel (
        release_all (dependents nodes e.1)
          (record s { ready = rest; ordered = s.ordered ++ e.1 ∷ [] }))
  ]

  unfoldable pub push_roots : Dict ℤ → List Node → List (ℕ × String)
  push_roots d [] = []
  push_roots d (n ∷ rest) =
      if is_zero (get n.id d)
      then heappush (index_of nodes n.id, n.id) (push_roots d rest)
      else push_roots d rest

  unfoldable pub start_peel : Peel
  unfolding indegrees push_roots
  start_peel =
      let d = indegrees (ids nodes) nodes in
      record { indegree = d; ready = push_roots d nodes; ordered = [] }

  unfoldable pub peel : Peel
  unfolding peel_loop start_peel
  peel = peel_loop (length nodes) start_peel

-- `by_id[x]`
unfoldable pub by_id : List Node → String → Option Node
by_id [] x = none
by_id (n ∷ nodes) x = if n.id == x then some n else by_id nodes x

-- `tuple(node for node in nodes if node.id not in peeled)`
unfoldable pub remaining : List Node → List Node
unfolding peel
remaining nodes = keep (λ n. not (has n.id (peel nodes).ordered)) nodes

-- `_find_cycle`: the walk along the first need that remains, until one repeats.
unfoldable pub first_need : List Node → List String → Option String
first_need nodes [] = none
first_need nodes (r ∷ needs) = if has r (ids nodes) then some r else first_need nodes needs

-- The part of the path from the first visit of an id.
abbrev pub drop_until : String → List String → List String
drop_until x [] = []
drop_until x (y ∷ ys) = if y == x then y ∷ ys else drop_until x ys

abbrev pub reverse_onto : List String → List String → List String
reverse_onto [] acc = acc
reverse_onto (x ∷ xs) acc = reverse_onto xs (x ∷ acc)

-- `path` is the walk so far; it repeats after at most as many steps as there are nodes.
unfoldable pub walk : List Node → ℕ → List String → String → Checked (List String)
unfolding by_id first_need
walk nodes zero path current = raised (not_on_a_cycle current)
walk nodes (suc fuel) path current = elim (has current path) [
  | true ↦ ok (reverse_onto (drop_until current path ++ current ∷ []) [])
  | false ↦ elim (by_id nodes current) [
    | none ↦ raised (not_on_a_cycle current)
    | some n ↦ elim (first_need nodes n.needs) [
      | none ↦ raised (not_on_a_cycle current)
      | some r ↦ walk nodes fuel (path ++ current ∷ []) r
    ]
  ]
]

unfoldable pub find_cycle : List Node → Checked (List String)
unfolding walk
find_cycle [] = raised (dependency_cycle [])
find_cycle (n ∷ nodes) = walk (n ∷ nodes) (suc (length (n ∷ nodes))) [] n.id

-- `_needs_must_be_acyclic`
unfoldable pub needs_must_be_acyclic : List Node → Checked (Unit {0})
unfolding remaining find_cycle
needs_must_be_acyclic nodes = elim (remaining nodes) [
  | [] ↦ ok tt
  | n ∷ rest ↦ find_cycle (n ∷ rest) >>= λ cycle. raised (dependency_cycle cycle)
]

-- The nodes at a list of ids: the loop appends `by_id[node_id]`.
unfoldable pub nodes_at : List Node → List String → List Node
unfolding by_id
nodes_at nodes [] = []
nodes_at nodes (x ∷ xs) = elim (by_id nodes x) [
  | none ↦ nodes_at nodes xs
  | some n ↦ n ∷ nodes_at nodes xs
]

unfoldable pub execution_order : Workflow → Checked (List Node)
unfolding remaining nodes_at
execution_order w = elim (remaining w.nodes) [
  | [] ↦ ok (nodes_at w.nodes (peel w.nodes).ordered)
  | n ∷ rest ↦ raised (unorderable (ids (n ∷ rest)))
]
