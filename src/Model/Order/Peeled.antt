-- ===== src/Model/Order/Peeled.antt =====
-- model.py: the invariant of Kahn's loop.
use cli_agentic_workflow.Prelude.{
  ==_cases, refl, true, has-concat, some, ◌++◌, ℕ, append_nil, append_assoc, ◌==◌, none, eqb, inl,
  Bool-cases, inr, ◌+◌, arith, pos, eq_iff, [], has, ◌≡◌, ◌∷◌, get, String, false, List,
  Option-cases, ap, eq_refl, suc,
}
use cli_agentic_workflow.Model.Node.{Node, ids}
use cli_agentic_workflow.Model.Order.{present, count, Peel, by_id, dependents, release_all}
use cli_agentic_workflow.Model.Order.Release.{
  names, bit, release_all-ordered, release_all-indegree, release_all-absent, release_all-ready,
}
use cli_agentic_workflow.Model.Order.Degrees.{
  by_id-absent, pending, pending-resolve, get-decrement_all, minus_pos, IsDistinct,
  count-dependents-none, count-dependents,
}

-- The needs of a node that are nodes, and how many of them are not in the order yet.
abbrev pub waiting : List Node → List String → Node → ℕ
waiting nodes ordered n = pending (λ r. has r ordered) (present (ids nodes) n.needs)

-- Each id stands after the ids that it needs; `before` is what stands before the list.
abbrev pub IsTopological : List Node → List String → List String → Type 0
IsTopological nodes before [] = Unit
IsTopological nodes before (x ∷ xs) =
    ((n : Node) → by_id nodes x ≡ some n → waiting nodes before n ≡ 0)
    × IsTopological nodes (before ++ x ∷ []) xs

-- A node is in the heap or in the order once when it waits for none, and in neither before that.
pub record IsPeeled (nodes : List Node) (s : Peel) : Type 0 where
  pub counted :
      (i : String) (n : Node)
      → by_id nodes i ≡ some n
      → get i s.indegree ≡ some (pos (waiting nodes s.ordered n))
  pub placed :
      (i : String) (n : Node)
      → by_id nodes i ≡ some n
      → count i (names s.ready) + count i s.ordered ≡ bit (eqb (waiting nodes s.ordered n) 0)
  pub known : (i : String) → by_id nodes i ≡ none → count i (names s.ready) + count i s.ordered ≡ 0
  pub sorted : IsTopological nodes [] s.ordered

count-present :
    (x : String) (known needs : List String)
    → has x known ≡ true
    → count x (present known needs) ≡ count x needs
count-present x known [] h = refl
count-present x known (r ∷ needs) h = elim (==_cases x r) [
  | inl (t, e) ↦
      let r' : has r known ≡ true = rw (← e) h in ground (arith, count-present x known needs h)
  | inr (t, e) ↦ ground (arith, count-present x known needs h)
]

pub count-concat :
    (i x : String) (xs : List String) → count i (xs ++ x ∷ []) ≡ count i xs + bit (i == x)
count-concat i x [] = ground arith
count-concat i x (y ∷ xs) = ground (arith, count-concat i x xs)

known-by_id :
    (nodes : List Node) (i : String) (n : Node) → by_id nodes i ≡ some n → has i (ids nodes) ≡ true
known-by_id nodes i n h = elim (Bool-cases (has i (ids nodes))) [
  | inl e ↦ e
  | inr e ↦ absurd (ground (arith, by_id-absent nodes i))
]

-- To put an id in the order takes its occurrences off what a node waits for.
waiting-concat :
    (nodes : List Node) (ordered : List String) (x : String) (n : Node)
    → has x (ids nodes) ≡ true
    → has x ordered ≡ false
    → waiting nodes ordered n ≡ count x n.needs + waiting nodes (ordered ++ x ∷ []) n
waiting-concat nodes ordered x n k f = ground (
  arith,
  pending-resolve (λ r. has r ordered) (λ r. has r (ordered ++ x ∷ [])) x f
      (λ y. ground (arith, has-concat y x ordered, eq_iff x y, eq_iff y x))
      (present (ids nodes) n.needs),
  count-present x (ids nodes) n.needs k,
)

IsTopological-concat :
    (nodes : List Node) (before xs : List String) (x : String)
    → IsTopological nodes before xs
    → ((n : Node) → by_id nodes x ≡ some n → waiting nodes (before ++ xs) n ≡ 0)
    → IsTopological nodes before (xs ++ x ∷ [])
IsTopological-concat nodes before [] x t h = (λ n e. rw (← append_nil before) (h n e), tt)
IsTopological-concat nodes before (y ∷ xs) x t h = (
  t.0,
  IsTopological-concat nodes (before ++ y ∷ []) xs x t.1
      (λ n e. rw (append_assoc before (y ∷ []) xs) (h n e)),
)

pub count_zero-has : (x : String) (xs : List String) → count x xs ≡ 0 → has x xs ≡ false
count_zero-has x [] h = refl
count_zero-has x (y ∷ xs) h = ground (arith, count_zero-has x xs)

module _ (nodes : List Node) (distinct : IsDistinct nodes) (s : Peel) (inv : IsPeeled nodes s)
    (e : ℕ × String) (rest : List (ℕ × String)) (ready : s.ready ≡ e ∷ rest) where
  -- What the head of the heap is.
  pub popped :
      (n : Node) × (by_id nodes e.1 ≡ some n)
      × (waiting nodes s.ordered n ≡ 0)
      × (count e.1 s.ordered ≡ 0)
  popped = elim (Option-cases (by_id nodes e.1)) [
    | inl f ↦ absurd (ground (arith, inv.known e.1 f, eq_refl e.1))
    | inr (n, f) ↦
        let at : suc (count e.1 (names rest)) + count e.1 s.ordered
            ≡ bit (eqb (waiting nodes s.ordered n) 0) =
          ground (arith, inv.placed e.1 n f, eq_refl e.1) in
        (n, f, ground (arith, at), ground (arith, at))
  ]

  abbrev before_release : Peel
  before_release = record s { ready = rest; ordered = s.ordered ++ e.1 ∷ [] }

  abbrev pub after : Peel
  after = release_all nodes (dependents nodes e.1) before_release

  pub after-ordered : after.ordered ≡ s.ordered ++ e.1 ∷ []
  after-ordered = release_all-ordered nodes (dependents nodes e.1) before_release

  -- What a node waits for, before and after.
  waiting-after :
      (i : String) (n : Node)
      → by_id nodes i ≡ some n
      → waiting nodes s.ordered n ≡ count i (dependents nodes e.1) + waiting nodes after.ordered n
  waiting-after i n h =
      let (nx, f, z, o) = popped in
      rw (after-ordered, count-dependents nodes i e.1 n distinct h)
        (waiting-concat nodes s.ordered e.1 n (known-by_id nodes e.1 nx f)
          (count_zero-has e.1 s.ordered o))

  after-counted :
      (i : String) (n : Node)
      → by_id nodes i ≡ some n
      → get i after.indegree ≡ some (pos (waiting nodes after.ordered n))
  after-counted i n h =
      let c = count i (dependents nodes e.1) in
      let k = waiting nodes s.ordered n in
      rw
        (
          release_all-indegree nodes (dependents nodes e.1) before_release,
          get-decrement_all i (dependents nodes e.1) s.indegree,
          inv.counted i n h,
          minus_pos c k (omega (arith, waiting-after i n h)),
        )
        (ap (λ z. some (pos z)) (omega (arith, waiting-after i n h)))

  after-placed :
      (i : String) (n : Node)
      → by_id nodes i ≡ some n
      → count i (names after.ready) + count i after.ordered
        ≡ bit (eqb (waiting nodes after.ordered n) 0)
  after-placed i n h = ground (
    arith,
    release_all-ready nodes (dependents nodes e.1) before_release i (waiting nodes s.ordered n)
        (inv.counted i n h) (omega (arith, waiting-after i n h)),
    waiting-after i n h,
    inv.placed i n h,
    ap (count i) after-ordered,
    count-concat i e.1 s.ordered,
    ap (λ heap. count i (names heap)) ready,
  )

  after-known :
      (i : String) → by_id nodes i ≡ none → count i (names after.ready) + count i after.ordered ≡ 0
  after-known i h = ground (
    arith,
    release_all-absent nodes (dependents nodes e.1) before_release i
        (count-dependents-none nodes i e.1 h),
    inv.known i h,
    ap (count i) after-ordered,
    count-concat i e.1 s.ordered,
    ap (λ heap. count i (names heap)) ready,
  )

  after-sorted : IsTopological nodes [] after.ordered
  after-sorted =
      let (nx, f, z, o) = popped in
      rw after-ordered (
        IsTopological-concat nodes [] s.ordered e.1 inv.sorted
          λ n g. let same : n ≡ nx = ground arith in rw same z)

  pub after-IsPeeled : IsPeeled nodes after
  after-IsPeeled = record {
    counted = after-counted;
    placed = after-placed;
    known = after-known;
    sorted = after-sorted;
  }
