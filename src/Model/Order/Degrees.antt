-- ===== src/Model/Order/Degrees.antt =====
-- model.py and executor.py: what the in-degree dicts count.
use cli_agentic_workflow.Prelude.{
  ℕ, zero, suc, ◌+◌, ◌-◌, Option-cases, ◌≤◌, String, List, [], ◌∷◌, Option, none, some, Bool, true,
  false, ◌||◌, ◌==◌, eq_iff, has, Dict, get, get-put, ℤ, pos, pred_ℤ, ◌≡◌, ◌≢◌, refl, ◌∙◌, ap,
  arith, ==_cases, inl, inr, if◌then◌else◌,
}
use cli_agentic_workflow.Model.Node.{Node, ids}
use cli_agentic_workflow.Model.Order.{count, repeat_id, dependents, decrement, decrement_all, by_id}

-- z - n
abbrev pub minus : ℕ → ℤ → ℤ
minus zero z = z
minus (suc n) z = minus n (pred_ℤ z)

abbrev pub lower : ℕ → Option ℤ → Option ℤ
lower n none = none
lower n (some z) = some (minus n z)

pub get-decrement :
    (i x : String) (d : Dict ℤ)
    → get i (decrement x d) ≡ (if x == i then lower 1 (get i d) else get i d)
get-decrement i x d = elim (Option-cases (get x d)) [
  | inl e ↦ ground (arith, eq_iff x i)
  | inr (z, e) ↦ ground (arith, eq_iff x i, get-put x i (pred_ℤ z) d)
]

lower_zero : (o : Option ℤ) → o ≡ lower 0 o
lower_zero none = refl
lower_zero (some z) = refl

pub lower-lower : (n : ℕ) (o : Option ℤ) → lower n (lower 1 o) ≡ lower (suc n) o
lower-lower n none = refl
lower-lower n (some z) = refl

pub get-decrement_all :
    (i : String) (xs : List String) (d : Dict ℤ)
    → get i (decrement_all xs d) ≡ lower (count i xs) (get i d)
get-decrement_all i [] d = lower_zero (get i d)
get-decrement_all i (x ∷ xs) d = ground (
  arith,
  eq_iff x i,
  eq_iff i x,
  get-decrement_all i xs (decrement x d),
  get-decrement i x d,
  lower-lower (count i xs) (get i d),
)

pub minus_pos : (n k : ℕ) → n ≤ k → minus n (pos k) ≡ pos (k - n)
minus_pos zero k h = ap pos (omega arith)
minus_pos (suc n) zero h = absurd (omega arith)
minus_pos (suc n) (suc k) h = minus_pos n k (omega arith) ∙ ap pos (omega arith)

count-repeat_id :
    (i x : String) (k : ℕ) (rest : List String)
    → count i (repeat_id k x rest) ≡ (if i == x then k + count i rest else count i rest)
count-repeat_id i x zero rest = ground arith
count-repeat_id i x (suc k) rest = ground (arith, count-repeat_id i x k rest)

-- No two nodes have one id.
abbrev pub IsDistinct : List Node → Type 0
IsDistinct [] = Unit
IsDistinct (n ∷ nodes) = (has n.id (ids nodes) ≡ false) × IsDistinct nodes

pub count-dependents-none :
    (nodes : List Node) (i x : String) → by_id nodes i ≡ none → count i (dependents nodes x) ≡ 0
unfolding dependents by_id
count-dependents-none [] i x h = refl
count-dependents-none (n ∷ nodes) i x h = ground (
  arith,
  eq_iff n.id i,
  eq_iff i n.id,
  count-repeat_id i n.id (count x n.needs) (dependents nodes x),
  count-dependents-none nodes i x,
)

pub by_id-absent :
    (nodes : List Node) (i : String) → has i (ids nodes) ≡ false → by_id nodes i ≡ none
unfolding by_id
by_id-absent [] i h = refl
by_id-absent (n ∷ nodes) i h = ground (arith, eq_iff n.id i, eq_iff i n.id, by_id-absent nodes i)

pub count-dependents :
    (nodes : List Node) (i x : String) (n : Node)
    → IsDistinct nodes
    → by_id nodes i ≡ some n
    → count i (dependents nodes x) ≡ count x n.needs
unfolding dependents by_id
count-dependents [] i x n d h = absurd (ground arith)
count-dependents (m ∷ nodes) i x n d h = elim (==_cases m.id i) [
  | inl (t, e) ↦ ground (
    arith,
    eq_iff m.id i,
    eq_iff i m.id,
    count-repeat_id i m.id (count x m.needs) (dependents nodes x),
    count-dependents-none nodes i x,
    by_id-absent nodes i,
  )
  | inr (t, e) ↦ ground (
    arith,
    eq_iff m.id i,
    eq_iff i m.id,
    count-repeat_id i m.id (count x m.needs) (dependents nodes x),
    count-dependents nodes i x n d.1,
  )
]

-- How many of the needs are not resolved.
abbrev pub pending : (String → Bool) → List String → ℕ
pending resolved [] = 0
pending resolved (r ∷ needs) =
    if resolved r then pending resolved needs else suc (pending resolved needs)

-- To resolve one more id takes its occurrences off.
pub pending-resolve :
    (p q : String → Bool) (x : String)
    → p x ≡ false
    → ((y : String) → q y ≡ p y || x == y)
    → (needs : List String) → pending p needs ≡ count x needs + pending q needs
pending-resolve p q x f e [] = refl
pending-resolve p q x f e (r ∷ needs) = elim (==_cases x r) [
  | inl (t, i) ↦ ground (arith, e r, pending-resolve p q x f e needs, ap p i)
  | inr (t, i) ↦ ground (arith, e r, pending-resolve p q x f e needs)
]

pub pending_mono :
    (p q : String → Bool)
    → ((y : String) → p y ≡ true → q y ≡ true)
    → (needs : List String) → pending q needs ≤ pending p needs
pending_mono p q h [] = omega arith
pending_mono p q h (r ∷ needs) = ground (arith, h r, pending_mono p q h needs)

pub pending-has :
    (p : String → Bool) (x : String) (needs : List String)
    → has x needs ≡ true
    → pending p needs ≡ 0
    → p x ≡ true
pending-has p x [] h e = absurd (ground arith)
pending-has p x (r ∷ needs) h e = elim (==_cases x r) [
  | inl (t, i) ↦ ground (arith, ap p i)
  | inr (t, i) ↦ ground (arith, pending-has p x needs)
]

pub has-count : (x : String) (xs : List String) → has x xs ≡ true → count x xs ≢ 0
has-count x [] h = λ e. cc
has-count x (y ∷ xs) h = ground (arith, has-count x xs)

pub count-has : (x : String) (xs : List String) → count x xs ≢ 0 → has x xs ≡ true
count-has x [] h = absurd (h refl)
count-has x (y ∷ xs) h = ground (arith, count-has x xs)

-- A dependent is a node that needs.
pub dependent_needs :
    (nodes : List Node) (d x : String)
    → IsDistinct nodes
    → has d (dependents nodes x) ≡ true
    → (n : Node) × (by_id nodes d ≡ some n) × (has x n.needs ≡ true)
dependent_needs nodes d x u h = elim (Option-cases (by_id nodes d)) [
  | inl e ↦ absurd (has-count d (dependents nodes x) h (count-dependents-none nodes d x e))
  | inr (n, e) ↦ (
    n,
    e,
    count-has x n.needs
        λ z. has-count d (dependents nodes x) h (count-dependents nodes d x n u e ∙ z),
  )
]
