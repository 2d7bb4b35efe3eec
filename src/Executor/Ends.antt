-- ===== src/Executor/Ends.antt =====
-- executor.py: no loop of the scheduler's model is cut off. `Walk` shows it of the walk over
-- dependents, `Passes` of the launching loop, and `Rounds` of a whole Run.
pub mod Walk
pub mod Tally
pub mod Narrowing
pub mod Passes
pub mod Rounds
use cli_agentic_workflow.Prelude.{Bool, true, false, ◌≡◌, refl, Result, ok, raised, ◌>>=◌}
use cli_agentic_workflow.Executor.Scheduler.{Error, out_of_fuel}

-- A step returns, or raises an exception of the program.
abbrev pub ends {ℓ} : {A : Type ℓ} → Result Error A → Bool
ends (ok a) = true
ends (raised out_of_fuel) = false
ends (raised _) = true

pub ends-bind {ℓ κ} :
    {A : Type ℓ} {B : Type κ} (m : Result Error A) (f : A → Result Error B)
    → ends m ≡ true
    → ((a : A) → m ≡ ok a → ends (f a) ≡ true)
    → ends (m >>= f) ≡ true
ends-bind (ok a) f h k = k a refl
ends-bind (raised Error.out_of_fuel) f h k = h
ends-bind (raised (Error.integrity_error e)) f h k = refl
ends-bind (raised (Error.no_recorded_output e)) f h k = refl
ends-bind (raised Error.assertion_error) f h k = refl
ends-bind (raised Error.key_error) f h k = refl
ends-bind (raised (Error.task_crash e)) f h k = refl
