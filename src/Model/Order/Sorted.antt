-- ===== src/Model/Order/Sorted.antt =====
-- model.py: Kahn's loop keeps its invariant, from its first state to its last.
use cli_agentic_workflow.Prelude.{
  ==_cases, ◌∷◌, ◌⊎◌, has, refl, ◌==◌, false, eq_iff, ℕ, suc, zero, if◌then◌else◌, String, some,
  arith, [], ap, length, Dict, get, inl, sym, ◌≡◌, ℤ, List, Bool-cases, none, inr, pos,
}
use cli_agentic_workflow.Model.Node.{Node, ids}
use cli_agentic_workflow.Model.Order.{
  present, count, indegrees, is_zero, index_of, Peel, peel_loop, push_roots, start_peel, peel,
  by_id,
}
use cli_agentic_workflow.Model.Order.Release.{names, count-heappush}
use cli_agentic_workflow.Model.Order.Peeled.{IsPeeled, after-IsPeeled}
use cli_agentic_workflow.Model.Order.Degrees.{IsDistinct, pending}

pending-none : (needs : List String) → pending (λ r. has r []) needs ≡ length needs
pending-none [] = refl
pending-none (r ∷ needs) = ap suc (pending-none needs)

get-indegrees :
    (known : List String) (nodes : List Node) (i : String) (n : Node)
    → by_id nodes i ≡ some n
    → get i (indegrees known nodes) ≡ some (pos (length (present known n.needs)))
unfolding by_id indegrees
get-indegrees known [] i n h = absurd (ground arith)
get-indegrees known (m ∷ nodes) i n h = elim (Bool-cases (m.id == i)) [
  | inl e ↦ let same : m ≡ n = ground arith in rw (e, ← same) refl
  | inr e ↦ ground (arith, get-indegrees known nodes i n)
]

count-push_roots :
    (all : List Node) (d : Dict ℤ) (nodes : List Node) (i : String)
    → count i (names (push_roots all d nodes))
      ≡ (if is_zero (get i d) then count i (ids nodes) else 0)
unfolding push_roots
count-push_roots all d [] i = ground arith
count-push_roots all d (n ∷ nodes) i = elim (==_cases i n.id) [
  | inl (t, e) ↦
      let same : is_zero (get i d) ≡ is_zero (get n.id d) = ap (λ x. is_zero (get x d)) e in
      ground (
        arith,
        same,
        count-push_roots all d nodes i,
        count-heappush i (index_of all n.id, n.id) (push_roots all d nodes),
      )
  | inr (t, e) ↦ ground (
    arith,
    count-push_roots all d nodes i,
    count-heappush i (index_of all n.id, n.id) (push_roots all d nodes),
  )
]

count_zero : (i : String) (xs : List String) → has i xs ≡ false → count i xs ≡ 0
count_zero i [] h = refl
count_zero i (x ∷ xs) h = ground (arith, count_zero i xs)

count-ids :
    (nodes : List Node) (i : String) (n : Node)
    → IsDistinct nodes
    → by_id nodes i ≡ some n
    → count i (ids nodes) ≡ 1
unfolding by_id
count-ids [] i n d h = absurd (ground arith)
count-ids (m ∷ nodes) i n d h = elim (==_cases m.id i) [
  | inl (t, e) ↦
      ground (arith, eq_iff i m.id, eq_iff m.id i, count_zero i (ids nodes) (rw (← e) d.0))
  | inr (t, e) ↦ ground (arith, eq_iff i m.id, eq_iff m.id i, count-ids nodes i n d.1)
]

count-ids-none : (nodes : List Node) (i : String) → by_id nodes i ≡ none → count i (ids nodes) ≡ 0
unfolding by_id
count-ids-none [] i h = refl
count-ids-none (m ∷ nodes) i h =
    ground (arith, eq_iff i m.id, eq_iff m.id i, count-ids-none nodes i)

pub start_peel-IsPeeled : (nodes : List Node) → IsDistinct nodes → IsPeeled nodes (start_peel nodes)
unfolding start_peel
start_peel-IsPeeled nodes d = record {
  counted = λ i n h.
      rw (get-indegrees (ids nodes) nodes i n h)
        (ap (λ k. some (pos k)) (sym (pending-none (present (ids nodes) n.needs))));
  placed = λ i n h. ground (
    arith,
    count-push_roots nodes (indegrees (ids nodes) nodes) nodes i,
    get-indegrees (ids nodes) nodes i n h,
    pending-none (present (ids nodes) n.needs),
    count-ids nodes i n d h,
  );
  known = λ i h. ground (
    arith,
    count-push_roots nodes (indegrees (ids nodes) nodes) nodes i,
    count-ids-none nodes i h,
  );
  sorted = tt;
}

pub List-cases {ℓ} :
    {A : Type ℓ} (xs : List A) → (xs ≡ []) ⊎ ((x : A) × (rest : List A) × (xs ≡ x ∷ rest))
List-cases [] = inl refl
List-cases (x ∷ rest) = inr (x, rest, refl)

peel_loop-IsPeeled :
    (nodes : List Node) (fuel : ℕ) (s : Peel)
    → IsDistinct nodes
    → IsPeeled nodes s
    → IsPeeled nodes (peel_loop nodes fuel s)
unfolding peel_loop
peel_loop-IsPeeled nodes zero s d inv = inv
peel_loop-IsPeeled nodes (suc fuel) s d inv = elim (List-cases s.ready) [
  | inl e ↦ rw (e, peel_loop) inv
  | inr (x, rest, e) ↦
      rw (e, peel_loop) (peel_loop-IsPeeled nodes fuel _ d (after-IsPeeled nodes d s inv x rest e))
]

pub peel-IsPeeled : (nodes : List Node) → IsDistinct nodes → IsPeeled nodes (peel nodes)
unfolding peel
peel-IsPeeled nodes d =
    peel_loop-IsPeeled nodes (length nodes) (start_peel nodes) d (start_peel-IsPeeled nodes d)
