-- ===== src/Executor/Retries.antt =====
-- executor.py: the numbers of Attempts, which `retries` bounds. `Launches` shows that skipping and
-- launching keep the bound, and `Rounds` that the rounds of `run` do.
pub mod Launches
pub mod Rounds
use cli_agentic_workflow.Prelude.{ℕ, ◌+◌, ◌≤◌, String, some, get, ◌≡◌, arith}
use cli_agentic_workflow.Model.Node.{Node}
use cli_agentic_workflow.Model.Order.{by_id}
use cli_agentic_workflow.Executor.Scheduler.{Context, Scheduler}

-- A Node is at most at the Attempt after its last retry.
abbrev pub Bounded : Context → Scheduler → Type 0
Bounded c s =
    (id : String) (n : Node) (k : ℕ)
    → by_id c.ordered id ≡ some n
    → get id s.attempt ≡ some k
    → k ≤ n.retries + 1

pub same-Bounded :
    (c : Context) (s s' : Scheduler) → s'.attempt ≡ s.attempt → Bounded c s → Bounded c s'
same-Bounded c s s' e b = λ id n k f g. b id n k f (ground (arith, e))
