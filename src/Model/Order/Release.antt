-- ===== src/Model/Order/Release.antt =====
-- model.py: what becomes of the in-degrees and the heap when a node is taken off.
use cli_agentic_workflow.Prelude.{
  if◌then◌else◌, map, ==_cases, ◌&&◌, some, pos, not, ◌≡◌, [], inr, ◌==◌, refl, eq_iff, arith, ◌+◌,
  ◌≤◌, ℕ, String, eqb, ◌∷◌, List, get, Bool, inl, suc, zero, eq_refl, Bool-cases,
}
use cli_agentic_workflow.Model.Node.{Node}
use cli_agentic_workflow.Model.Order.{
  count, decrement_all, index_of, heappush, Peel, release, release_all, decrement,
}
use cli_agentic_workflow.Model.Order.Degrees.{get-decrement}

-- The ids in the heap.
abbrev pub names : List (ℕ × String) → List String
names heap = map (λ e. e.1) heap

abbrev pub bit : Bool → ℕ
bit b = if b then 1 else 0

pub count-heappush :
    (i : String) (e : ℕ × String) (heap : List (ℕ × String))
    → count i (names (heappush e heap)) ≡ bit (i == e.1) + count i (names heap)
unfolding heappush
count-heappush i e [] = ground arith
count-heappush i e (h ∷ heap) = ground (arith, count-heappush i e heap)

module _ (nodes : List Node) where
  pub release_all-ordered :
      (xs : List String) (s : Peel) → (release_all nodes xs s).ordered ≡ s.ordered
  unfolding release_all release
  release_all-ordered [] s = refl
  release_all-ordered (x ∷ xs) s = release_all-ordered xs (release nodes x s)

  pub release_all-indegree :
      (xs : List String) (s : Peel)
      → (release_all nodes xs s).indegree ≡ decrement_all xs s.indegree
  unfolding release_all release
  release_all-indegree [] s = refl
  release_all-indegree (x ∷ xs) s = release_all-indegree xs (release nodes x s)

  -- Only what is released is pushed.
  pub release_all-absent :
      (xs : List String) (s : Peel) (i : String)
      → count i xs ≡ 0
      → count i (names (release_all nodes xs s).ready) ≡ count i (names s.ready)
  unfolding release_all release
  release_all-absent [] s i h = refl
  release_all-absent (x ∷ xs) s i h = ground (
    arith,
    release_all-absent xs (release nodes x s) i,
    count-heappush i (index_of nodes x, x) s.ready,
  )

  release-pushed :
      (x : String) (s : Peel) (i : String) (k : ℕ)
      → i ≡ x
      → get x (decrement x s.indegree) ≡ some (pos k)
      → count i (names (release nodes x s).ready) ≡ bit (eqb k 0) + count i (names s.ready)
  unfolding release
  release-pushed x s i k e g = elim (Bool-cases (eqb k 0)) [
    | inl f ↦ ground (arith, eq_iff i x, count-heappush i (index_of nodes x, x) s.ready)
    | inr f ↦ ground arith
  ]

  -- An id is pushed when its last in-degree is taken off, and once.
  pub release_all-ready :
      (xs : List String) (s : Peel) (i : String) (k : ℕ)
      → get i s.indegree ≡ some (pos k)
      → count i xs ≤ k
      → count i (names (release_all nodes xs s).ready)
        ≡ count i (names s.ready) + bit (not (eqb (count i xs) 0) && eqb (count i xs) k)
  unfolding release_all release
  release_all-ready [] s i k g h = ground arith
  release_all-ready (x ∷ xs) s i zero g h = elim (==_cases i x) [
    | inl (t, e) ↦ absurd (ground arith)
    | inr (t, e) ↦ ground (
      arith,
      release_all-absent xs (release nodes x s) i,
      count-heappush i (index_of nodes x, x) s.ready,
    )
  ]
  release_all-ready (x ∷ xs) s i (suc k) g h = elim (==_cases i x) [
    | inr (t, e) ↦ ground (
      arith,
      eq_iff x i,
      eq_iff i x,
      get-decrement i x s.indegree,
      release_all-ready xs (release nodes x s) i (suc k),
      count-heappush i (index_of nodes x, x) s.ready,
    )
    | inl (t, e) ↦
        let g' : get x (decrement x s.indegree) ≡ some (pos k) =
          ground (arith, eq_iff x i, eq_iff i x, eq_refl x, get-decrement i x s.indegree) in
        let g'' : get i (decrement x s.indegree) ≡ some (pos k) = rw e g' in
        let rest = release_all-ready xs (release nodes x s) i k g'' (ground arith) in
        let pushed = release-pushed x s i k e g' in ground (arith, rest, pushed)
  ]
