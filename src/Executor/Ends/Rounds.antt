-- ===== src/Executor/Ends/Rounds.antt =====
-- executor.py: every round of `run` ends.
use cli_agentic_workflow.Prelude.{
  ℕ, String, List, [], ◌∷◌, Option, none, some, true, ◌&&◌, has, ◌≡◌, ◌≢◌, refl, raised, arith, ap,
  sym, Bool-cases, Option-cases, inl, inr, get, ◌∙◌,
}
use cli_agentic_workflow.Model.Node.{Node}
use cli_agentic_workflow.Model.Order.{by_id}
use cli_agentic_workflow.Executor.Outcome.{NodeResult, succeeded, retryable}
use cli_agentic_workflow.Executor.Scheduler.{Context, Scheduler, out_of_fuel}
use cli_agentic_workflow.Executor.Attempts.{
  add_result, finish_node, record_attempt_of, on_succeeded, on_retry, on_failed, handle_at,
  handle_result, retries_remaining,
}
use cli_agentic_workflow.Executor.Launch.{launch_ready}
use cli_agentic_workflow.Executor.Loop.{
  Done, pop_task, handle_finished, handle_batch, launch_or_raise, round, rounds, run,
}
use cli_agentic_workflow.Executor.Ends.{ends, ends-bind}
use cli_agentic_workflow.Executor.Ends.Walk.{skip_failed_dependents-ends}
use cli_agentic_workflow.Executor.Ends.Passes.{launch_ready-ends}

module _ (c : Context) where
  record_attempt_of-ends :
      (id : String) (k : ℕ) (r : NodeResult) (s : Scheduler)
      → ends (record_attempt_of c id k r s) ≡ true
  unfolding record_attempt_of
  record_attempt_of-ends id k r s = ground arith

  handle_at-ends :
      (n : Node) (k : ℕ) (r : NodeResult) (s : Scheduler) → ends (handle_at c n k r s) ≡ true
  unfolding on_succeeded on_retry on_failed
  handle_at-ends n k r s =
      ends-bind (record_attempt_of c n.id k r s) _ (record_attempt_of-ends n.id k r s) λ s' h.
        let t = record r { attempt = k } in
        elim (Bool-cases (succeeded t)) [
          | inl e ↦ rw e refl
          | inr e ↦ rw e (elim (Bool-cases (retryable t && retries_remaining c n k)) [
            | inl f ↦ rw f refl
            | inr f ↦
                rw f (skip_failed_dependents-ends c n.id (add_result t (finish_node c n.id t s')))
          ])
        ]

  handle_result-ends :
      (n : Node) (r : NodeResult) (s : Scheduler) → ends (handle_result c n r s) ≡ true
  unfolding handle_result
  handle_result-ends n r s = elim (Option-cases (get n.id s.attempt)) [
    | inl e ↦ rw (e, handle_result) refl
    | inr (k, e) ↦ rw (e, handle_result) (handle_at-ends n k r s)
  ]

  handle_finished-ends : (r : NodeResult) (s : Scheduler) → ends (handle_finished c r s) ≡ true
  unfolding handle_finished
  handle_finished-ends r s = elim (Bool-cases (has r.node_id s.in_flight)) [
    | inl h ↦ rw h (elim (Option-cases (by_id c.ordered r.node_id)) [
      | inl e ↦ rw (e, handle_finished) refl
      | inr (n, e) ↦ rw (e, handle_finished) (handle_result-ends n r (pop_task c r.node_id s))
    ])
    | inr h ↦ rw h refl
  ]

  handle_batch-ends :
      (crash : Option String) (batch : List Done) (s : Scheduler)
      → ends (handle_batch c crash batch s) ≡ true
  unfolding handle_batch
  handle_batch-ends crash [] s = refl
  handle_batch-ends crash (Done.crashed id error ∷ batch) s = handle_batch-ends _ batch s
  handle_batch-ends crash (Done.finished r ∷ batch) s =
      ends-bind (handle_finished c r s) _ (handle_finished-ends r s)
        (λ s' h. handle_batch-ends crash batch s')

  launch_or_raise-ends : (p : Option String × Scheduler) → ends (launch_or_raise c p) ≡ true
  launch_or_raise-ends (none, s) = launch_ready-ends c s
  launch_or_raise-ends (some error, s) = refl

  round-ends : (batch : List Done) (s : Scheduler) → ends (round c batch s) ≡ true
  unfolding round
  round-ends batch s =
      ends-bind (handle_batch c none batch s) _ (handle_batch-ends none batch s)
        (λ p h. launch_or_raise-ends p)

  rounds-ends : (batches : List (List Done)) (s : Scheduler) → ends (rounds c batches s) ≡ true
  unfolding rounds
  rounds-ends [] s = refl
  rounds-ends (batch ∷ batches) s =
      ends-bind (round c batch s) _ (round-ends batch s) (λ s' h. rounds-ends batches s')

-- The scheduler's loops end: from every state and under every schedule a Run returns its next state
-- or raises an exception of the program, for neither a walk over dependents nor the launching loop
-- uses up its fuel.
pub run-ends :
    (c : Context) (batches : List (List Done)) (s : Scheduler)
    → run c batches s ≢ raised out_of_fuel
unfolding run
run-ends c batches s = λ e.
    let h : ends (run c batches s) ≡ true =
      ends-bind (launch_ready c s) _ (launch_ready-ends c s) (λ s' k. rounds-ends c batches s') in
    cc (sym h ∙ ap ends e)
