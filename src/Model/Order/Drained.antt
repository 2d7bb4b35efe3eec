-- ===== src/Model/Order/Drained.antt =====
-- model.py: Kahn's loop ends with an empty heap, so what remains waits for what remains.
use cli_agentic_workflow.Prelude.{
  true, suc, eq_refl, has, ==_cases, refl, ℕ, some, ◌∷◌, zero, not, Bool, ◌≤◌, false, ◌≡◌, inl, ◌<◌,
  inr, arith, List, String, has-concat, [], ◌≢◌, Bool-cases, ap, length,
}
use cli_agentic_workflow.Model.Node.{Node, ids}
use cli_agentic_workflow.Model.Order.{Peel, peel_loop, by_id, present, count, start_peel, peel}
use cli_agentic_workflow.Model.Order.Peeled.{
  IsPeeled, count_zero-has, popped, after, after-ordered, after-IsPeeled,
}
use cli_agentic_workflow.Model.Order.Sorted.{List-cases, start_peel-IsPeeled, peel-IsPeeled}
use cli_agentic_workflow.Model.Order.Degrees.{IsDistinct, pending}
use cli_agentic_workflow.Executor.Ends.Tally.{tally, Implies, tally_mono, tally-length}
use cli_agentic_workflow.Model.Order.Release.{names}

-- How many nodes are not in the order.
abbrev left_out : List Node → List String → ℕ
left_out nodes ordered = tally (λ y. not (has y ordered)) nodes

pub tally-lower :
    (p q : String → Bool) (nodes : List Node) (x : String) (n : Node)
    → Implies p q
    → by_id nodes x ≡ some n
    → q x ≡ true
    → p x ≡ false
    → tally p nodes < tally q nodes
unfolding by_id
tally-lower p q [] x n h e a b = absurd (ground arith)
tally-lower p q (m ∷ nodes) x n h e a b = elim (==_cases m.id x) [
  | inl (t, f) ↦
      let a' : q m.id ≡ true = rw f a in
      let b' : p m.id ≡ false = rw f b in ground (arith, tally_mono p q nodes h)
  | inr (t, f) ↦ ground (arith, h m.id, tally-lower p q nodes x n h (ground arith) a b)
]

-- With fuel for what is left out, the loop stops at an empty heap.
peel_loop-drained :
    (nodes : List Node) (fuel : ℕ) (s : Peel)
    → IsDistinct nodes
    → IsPeeled nodes s
    → left_out nodes s.ordered ≤ fuel
    → (peel_loop nodes fuel s).ready ≡ []
unfolding peel_loop
peel_loop-drained nodes zero s d inv h = elim (List-cases s.ready) [
  | inl e ↦ e
  | inr (x, rest, e) ↦
      let (n, f, z, o) = popped nodes d s inv x rest e in
      absurd (
        omega (
          arith,
          h,
          tally-lower (λ y. false) (λ y. not (has y s.ordered)) nodes x.1 n (λ y b. ground arith) f
              (ground (arith, count_zero-has x.1 s.ordered o)) refl,
        ))
]
peel_loop-drained nodes (suc fuel) s d inv h = elim (List-cases s.ready) [
  | inl e ↦ rw (e, peel_loop) e
  | inr (x, rest, e) ↦
      let (n, f, z, o) = popped nodes d s inv x rest e in
      let next = after nodes d s inv x rest e in
      rw (e, peel_loop)
        (peel_loop-drained nodes fuel next d (after-IsPeeled nodes d s inv x rest e) (
          omega (
            arith,
            h,
            tally-lower (λ y. not (has y next.ordered)) (λ y. not (has y s.ordered)) nodes x.1 n
                (λ y b.
                  ground (arith, after-ordered nodes d s inv x rest e, has-concat y x.1 s.ordered))
                f (ground (arith, count_zero-has x.1 s.ordered o))
                (ground (
                  arith,
                  after-ordered nodes d s inv x rest e,
                  has-concat x.1 x.1 s.ordered,
                  eq_refl x.1,
                )),
          )))
]

pub peel-drained : (nodes : List Node) → IsDistinct nodes → (peel nodes).ready ≡ []
unfolding peel
peel-drained nodes d =
    peel_loop-drained nodes (length nodes) (start_peel nodes) d (start_peel-IsPeeled nodes d)
      (tally-length (λ y. not (has y (start_peel nodes).ordered)) nodes)

pending-positive :
    (p : String → Bool) (needs : List String)
    → pending p needs ≢ 0
    → (r : String) × (has r needs ≡ true) × (p r ≡ false)
pending-positive p [] h = absurd (h refl)
pending-positive p (r ∷ needs) h = elim (Bool-cases (p r)) [
  | inr e ↦ (r, ground (arith, eq_refl r), e)
  | inl e ↦ let (x, m, f) = pending-positive p needs (λ z. h (ground arith)) in (x, ground arith, f)
]

present-has :
    (r : String) (known needs : List String)
    → has r (present known needs) ≡ true
    → (has r needs ≡ true) × (has r known ≡ true)
present-has r known [] h = absurd (ground arith)
present-has r known (x ∷ needs) h = elim (Bool-cases (has x known)) [
  | inr e ↦ let (a, b) = present-has r known needs (ground arith) in (ground arith, b)
  | inl e ↦ elim (==_cases r x) [
    | inl (t, f) ↦ (ground arith, rw f e)
    | inr (t, f) ↦ let (a, b) = present-has r known needs (ground arith) in (ground arith, b)
  ]
]

count-absent : (i : String) (xs : List String) → has i xs ≡ false → count i xs ≡ 0
count-absent i [] h = refl
count-absent i (x ∷ xs) h = ground (arith, count-absent i xs)

-- A node that remains needs one that remains.
pub remaining_need :
    (nodes : List Node) (i : String) (n : Node)
    → IsDistinct nodes
    → by_id nodes i ≡ some n
    → has i (peel nodes).ordered ≡ false
    → (r : String) × (has r n.needs ≡ true)
      × (has r (ids nodes) ≡ true)
      × (has r (peel nodes).ordered ≡ false)
remaining_need nodes i n d h f =
    let placed = (peel-IsPeeled nodes d).placed i n h in
    let empty : count i (names (peel nodes).ready) ≡ 0 =
      ap (λ heap. count i (names heap)) (peel-drained nodes d) in
    let (r, m, g) =
      pending-positive (λ r. has r (peel nodes).ordered) (present (ids nodes) n.needs)
        (λ z. ground (arith, placed, empty, count-absent i (peel nodes).ordered f, z)) in
    let (a, b) = present-has r (ids nodes) n.needs m in (r, a, b, g)
