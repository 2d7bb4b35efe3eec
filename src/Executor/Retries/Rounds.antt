-- ===== src/Executor/Retries/Rounds.antt =====
-- executor.py: a retry goes one Attempt on, while retries remain.
use cli_agentic_workflow.Prelude.{
  ℕ, ◌+◌, ◌≤◌, String, List, [], ◌∷◌, Option, none, some, true, ◌&&◌, has, get, put, get-put, ◌≡◌,
  refl, sym, ap, ◌∙◌, subst, ok, raised, Result, ◌>>=◌, arith, Bool-cases, Option-cases, ==_cases,
  inl, inr,
}
use cli_agentic_workflow.State.{StateStore}
use cli_agentic_workflow.Model.Node.{Node}
use cli_agentic_workflow.Model.Order.{by_id}
use cli_agentic_workflow.Executor.Outcome.{NodeResult, succeeded, retryable}
use cli_agentic_workflow.Executor.Scheduler.{
  Context, Scheduler, Error, Event, release_dependents, init, append_event,
}
use cli_agentic_workflow.Executor.Attempts.{
  add_result, finish_node, record_attempt_of, on_succeeded, on_retry, on_failed, handle_at,
  handle_result, retries_remaining,
}
use cli_agentic_workflow.Executor.Launch.{launch_ready}
use cli_agentic_workflow.Executor.Loop.{
  Done, pop_task, handle_finished, handle_batch, launch_or_raise, round, rounds, run,
}
use cli_agentic_workflow.Executor.Sound.{Ensures, Ensures-bind, Ensures-ok}
use cli_agentic_workflow.Executor.Sound.Rounds.{by_id-id, fresh}
use cli_agentic_workflow.Executor.Retries.{Bounded, same-Bounded}
use cli_agentic_workflow.Executor.Retries.Launches.{skip_failed-Bounded, launch_ready-Bounded}

module _ (c : Context) where
  attempt-record_attempt_of :
      (id : String) (k : ℕ) (r : NodeResult) (s s' : Scheduler)
      → record_attempt_of c id k r s ≡ ok s'
      → s'.attempt ≡ s.attempt
  unfolding record_attempt_of
  attempt-record_attempt_of id k r s s' h = ground arith

  retried :
      (n : Node) (k : ℕ) (s s' : Scheduler)
      → by_id c.ordered n.id ≡ some n
      → retries_remaining c n k ≡ true
      → s'.attempt ≡ put n.id (k + 1) s.attempt
      → Bounded c s
      → Bounded c s'
  retried n k s s' known remain e t = λ id m j f g. elim (==_cases n.id id) [
    | inl (u, q) ↦
        let same : m ≡ n = cc (f, ap (by_id c.ordered) q, known) in
        subst (λ x. j ≤ x.retries + 1) (sym same)
          (ground (arith, e, get-put n.id id (k + 1) s.attempt))
    | inr (u, q) ↦ ground (arith, e, get-put n.id id (k + 1) s.attempt, t id m j f)
  ]

  handle_at-Bounded :
      (n : Node) (k : ℕ) (r : NodeResult) (s : Scheduler)
      → by_id c.ordered n.id ≡ some n
      → Bounded c s
      → Ensures (Bounded c) (handle_at c n k r s)
  unfolding on_succeeded on_retry on_failed release_dependents
  handle_at-Bounded n k r s known t =
      Ensures-bind (Bounded c) (record_attempt_of c n.id k r s) _ λ s' h.
        let t' = same-Bounded c s s' (attempt-record_attempt_of n.id k r s s' h) t in
        let end = record r { attempt = k } in
        elim (Bool-cases (succeeded end)) [
          | inl e ↦ rw e t'
          | inr e ↦ rw e (elim (Bool-cases (retryable end && retries_remaining c n k)) [
            | inl f ↦ rw f (
                retried n k s'
                  (append_event (Event.node_retrying n.id (k + 1) r.failure_kind)
                    (record s' { attempt = put n.id (k + 1) s'.attempt }))
                  known (ground arith) refl t')
            | inr f ↦
                rw f (skip_failed-Bounded c n.id (add_result end (finish_node c n.id end s')) t')
          ])
        ]

  handle_result-Bounded :
      (n : Node) (r : NodeResult) (s : Scheduler)
      → by_id c.ordered n.id ≡ some n
      → Bounded c s
      → Ensures (Bounded c) (handle_result c n r s)
  unfolding handle_result
  handle_result-Bounded n r s known t = elim (Option-cases (get n.id s.attempt)) [
    | inl e ↦ rw (e, handle_result) tt
    | inr (k, e) ↦ rw (e, handle_result) (handle_at-Bounded n k r s known t)
  ]

  handle_finished-Bounded :
      (r : NodeResult) (s : Scheduler) → Bounded c s → Ensures (Bounded c) (handle_finished c r s)
  unfolding handle_finished
  handle_finished-Bounded r s t = elim (Bool-cases (has r.node_id s.in_flight)) [
    | inl h ↦ rw h (elim (Option-cases (by_id c.ordered r.node_id)) [
      | inl e ↦ rw (e, handle_finished) tt
      | inr (n, e) ↦
          rw (e, handle_finished)
            (handle_result-Bounded n r (pop_task c r.node_id s)
              (ap (by_id c.ordered) (by_id-id c.ordered r.node_id n e) ∙ e) t)
    ])
    | inr h ↦ rw h tt
  ]

  abbrev BatchBounded : Result Error (Option String × Scheduler) → Type 0
  BatchBounded (ok (crash, s)) = Bounded c s
  BatchBounded (raised e) = Unit

  batch_bind :
      (m : Result Error Scheduler) (f : Scheduler → Result Error (Option String × Scheduler))
      → Ensures (Bounded c) m
      → ((s : Scheduler) → Bounded c s → BatchBounded (f s))
      → BatchBounded (m >>= f)
  batch_bind (ok s) f e h = h s e
  batch_bind (raised e) f _ h = tt

  batch-Bounded :
      (crash : Option String) (batch : List Done) (s : Scheduler)
      → Bounded c s
      → BatchBounded (handle_batch c crash batch s)
  unfolding handle_batch
  batch-Bounded crash [] s t = t
  batch-Bounded crash (Done.crashed id error ∷ batch) s t = batch-Bounded _ batch s t
  batch-Bounded crash (Done.finished r ∷ batch) s t =
      batch_bind (handle_finished c r s) (handle_batch c crash batch)
        (handle_finished-Bounded r s t) (batch-Bounded crash batch)

  launch_or_raise-Bounded :
      (m : Result Error (Option String × Scheduler))
      → BatchBounded m
      → Ensures (Bounded c) (m >>= launch_or_raise c)
  launch_or_raise-Bounded (ok (none, s)) t = launch_ready-Bounded c s t
  launch_or_raise-Bounded (ok (some error, s)) t = tt
  launch_or_raise-Bounded (raised e) t = tt

  then-Bounded :
      (m : Result Error Scheduler) (f : Scheduler → Result Error Scheduler)
      → Ensures (Bounded c) m
      → ((s : Scheduler) → Bounded c s → Ensures (Bounded c) (f s))
      → Ensures (Bounded c) (m >>= f)
  then-Bounded (ok s) f e h = h s e
  then-Bounded (raised e) f _ h = tt

  rounds-Bounded :
      (batches : List (List Done)) (s : Scheduler)
      → Bounded c s
      → Ensures (Bounded c) (rounds c batches s)
  unfolding rounds round
  rounds-Bounded [] s t = t
  rounds-Bounded (batch ∷ batches) s t =
      then-Bounded (round c batch s) (rounds c batches)
        (launch_or_raise-Bounded (handle_batch c none batch s) (batch-Bounded none batch s t))
        (rounds-Bounded batches)

  run-Bounded :
      (batches : List (List Done)) (s : Scheduler)
      → Bounded c s
      → Ensures (Bounded c) (run c batches s)
  unfolding run
  run-Bounded batches s t =
      then-Bounded (launch_ready c s) (rounds c batches) (launch_ready-Bounded c s t)
        (rounds-Bounded batches)

fresh-Bounded :
    (c : Context) (db : StateStore) (events : List Event) → Bounded c (fresh c db events)
unfolding init
fresh-Bounded c db events = λ id n k f g. absurd (ground arith)

-- At every point of a fresh Run, under every schedule, the number of a Node's Attempt is at most its
-- retries and one more.
pub attempt-bound :
    (c : Context) (db : StateStore) (events : List Event) (batches : List (List Done))
    (s : Scheduler) (id : String) (n : Node) (k : ℕ)
    → run c batches (fresh c db events) ≡ ok s
    → by_id c.ordered id ≡ some n
    → get id s.attempt ≡ some k
    → k ≤ n.retries + 1
attempt-bound c db events batches s id n k e =
    Ensures-ok (Bounded c) (run c batches (fresh c db events)) s e
      (run-Bounded c batches (fresh c db events) (fresh-Bounded c db events)) id n k
