-- ===== src/Executor/Ends/Tally.antt =====
-- executor.py: how many Nodes are open, as a count that a narrower test lowers.
use cli_agentic_workflow.Prelude.{
  ℕ, suc, ◌≤◌, ◌<◌, String, List, [], ◌∷◌, Bool, true, false, length, keep, ◌≡◌, arith,
  if◌then◌else◌, Bool-cases, inl, inr,
}
use cli_agentic_workflow.Model.Node.{Node}

-- How many Nodes pass a test.
abbrev pub tally : (String → Bool) → List Node → ℕ
tally p [] = 0
tally p (n ∷ nodes) = if p n.id then suc (tally p nodes) else tally p nodes

pub tally-length : (p : String → Bool) (nodes : List Node) → tally p nodes ≤ length nodes
tally-length p [] = omega arith
tally-length p (n ∷ nodes) = ground (arith, tally-length p nodes)

abbrev pub Implies : (String → Bool) → (String → Bool) → Type 0
Implies p q = (y : String) → p y ≡ true → q y ≡ true

pub tally_mono :
    (p q : String → Bool) (nodes : List Node) → Implies p q → tally p nodes ≤ tally q nodes
tally_mono p q [] h = omega arith
tally_mono p q (n ∷ nodes) h = ground (arith, tally_mono p q nodes h, h n.id)

-- The first Node that passes a narrower test is closed: there are fewer.
pub tally-less :
    (p q : String → Bool) (r : Node → Bool) (nodes : List Node) (n : Node) (ready : List Node)
    → Implies p q
    → keep r nodes ≡ n ∷ ready
    → q n.id ≡ true
    → p n.id ≡ false
    → tally p nodes < tally q nodes
tally-less p q r [] n ready h e a b = absurd (ground arith)
tally-less p q r (m ∷ nodes) n ready h e a b = elim (Bool-cases (r m)) [
  | inl t ↦ ground (arith, tally_mono p q nodes h)
  | inr t ↦ ground (arith, h m.id, tally-less p q r nodes n ready h)
]

pub keep_head :
    (r : Node → Bool) (nodes : List Node) (n : Node) (ready : List Node)
    → keep r nodes ≡ n ∷ ready
    → r n ≡ true
keep_head r [] n ready e = absurd (ground arith)
keep_head r (m ∷ nodes) n ready e = elim (Bool-cases (r m)) [
  | inl t ↦ ground arith
  | inr t ↦ ground (arith, keep_head r nodes n ready)
]
