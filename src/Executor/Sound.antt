-- ===== src/Executor/Sound.antt =====
-- executor.py: the invariant of `_Scheduler` in a fresh Run. `Skip` and `Skips`,
-- `Let`, `Launch` and `Passes`, `Attempts` and
-- `Rounds` show that every step keeps it.
pub mod Skip
pub mod Skips
pub mod Let
pub mod Launch
pub mod Passes
pub mod Attempts
pub mod Rounds
use cli_agentic_workflow.Prelude.{
  ℕ, ◌≤◌, String, List, [], ◌∷◌, Option, none, some, Bool, true, false, ◌&&◌, ◌||◌, ◌==◌, has,
  length, get, pos, is_some, ◌≡◌, refl, subst, Result, ok, raised, ◌>>=◌,
}
use cli_agentic_workflow.State.{SkipCause}
use cli_agentic_workflow.Model.Node.{Node}
use cli_agentic_workflow.Model.Order.{by_id}
use cli_agentic_workflow.Model.Order.Degrees.{pending}
use cli_agentic_workflow.Executor.Outcome.{NodeResult, succeeded}
use cli_agentic_workflow.Executor.Scheduler.{Context, Scheduler, Error, result_ids, is_terminal}

abbrev pub succeeded_in : String → List NodeResult → Bool
succeeded_in x [] = false
succeeded_in x (r ∷ rs) = x == r.node_id && succeeded r || succeeded_in x rs

-- A need that no longer holds a dependent back: it succeeded, or it was skipped.
abbrev pub resolved : Scheduler → String → Bool
resolved s x = succeeded_in x s.results || has x s.skipped

-- A Node that was let past its needs: in flight, finished, or parked.
abbrev pub launched : Scheduler → String → Bool
launched s x = has x s.in_flight || has x (result_ids s) || has x s.awaiting

abbrev pub cause_is_blocked : Option SkipCause → Bool
cause_is_blocked (some SkipCause.blocked) = true
cause_is_blocked _ = false

abbrev pub unresolved : Scheduler → Node → ℕ
unresolved s n = pending (resolved s) n.needs

pub record IsSound (c : Context) (s : Scheduler) : Type 0 where
  -- Nothing was seeded.
  pub fresh : s.satisfied ≡ []
  -- The in-degree is the number of needs that are not resolved.
  pub counted :
      (id : String) (n : Node)
      → by_id c.ordered id ≡ some n
      → get id s.indegree ≡ some (pos (unresolved s n))
  -- A launched Node has no unresolved need.
  pub let_past :
      (id : String) (n : Node)
      → by_id c.ordered id ≡ some n
      → launched s id ≡ true
      → unresolved s n ≡ 0
  -- No Node is in flight and terminal, nor attempted and skipped.
  pub apart : (id : String) → has id s.in_flight ≡ true → is_terminal s id ≡ false
  pub exclusive : (id : String) → has id (result_ids s) ≡ true → has id s.skipped ≡ false
  -- A skip has a cause, and a blocker exactly when the cause is `blocked`.
  pub causes : (id : String) → has id s.skipped ≡ is_some (get id s.skipped_causes)
  pub blockers :
      (id : String)
      → cause_is_blocked (get id s.skipped_causes) ≡ is_some (get id s.skipped_blockers)
  pub bounded : length s.in_flight ≤ c.concurrency

-- What a step comes to where it returns.
abbrev pub Ensures : (Scheduler → Type 0) → Result Error Scheduler → Type 0
Ensures P (ok s) = P s
Ensures P (raised e) = Unit

pub Ensures-bind :
    (Q : Scheduler → Type 0) (m : Result Error Scheduler) (f : Scheduler → Result Error Scheduler)
    → ((s : Scheduler) → m ≡ ok s → Ensures Q (f s))
    → Ensures Q (m >>= f)
Ensures-bind Q (ok s) f h = h s refl
Ensures-bind Q (raised e) f h = tt

-- The value of a step that ensures something.
pub Ensures-ok :
    (Q : Scheduler → Type 0) (m : Result Error Scheduler) (s : Scheduler)
    → m ≡ ok s
    → Ensures Q m
    → Q s
Ensures-ok Q m s e h = subst (Ensures Q) e h
