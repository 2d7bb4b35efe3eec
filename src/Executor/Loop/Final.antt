-- ===== src/Executor/Loop/Final.antt =====
-- executor.py: the status that a Run ends with, in its result and in State.
use cli_agentic_workflow.Prelude.{
  String, List, [], ◌∷◌, some, true, ◌==◌, ◌≡◌, refl, arith, Bool-cases, inl, inr, exists_in, map,
  if◌then◌else◌, Bool, none, Option-cases, false, is_some, has, eq_iff, every, eq_refl, keep, All,
  subst,
}
use cli_agentic_workflow.Status.{RunStatus}
use cli_agentic_workflow.State.{
  RunRow, has_run, run_status, find_status, is_run, record_run_parked, record_run_finished,
}
use cli_agentic_workflow.Executor.Outcome.{
  parked, run_result_status, is_nonempty, NodeResult, status, rejected, run_succeeded, succeeded,
}
use cli_agentic_workflow.Executor.Scheduler.{Context, Scheduler}
use cli_agentic_workflow.Executor.Loop.{run_result, finalize_run}
use cli_agentic_workflow.Model.Node.{ids}

find_status-update :
    (run_id : String) (f : RunRow → RunRow) (status : RunStatus) (rows : List RunRow)
    → ((r : RunRow) → ((f r).run_id ≡ r.run_id) × ((f r).status ≡ status))
    → exists_in (is_run run_id) rows ≡ true
    → find_status run_id (map (λ r. if is_run run_id r then f r else r) rows) ≡ some status
find_status-update run_id f status [] h e = absurd (ground arith)
find_status-update run_id f status (r ∷ rows) h e = elim (Bool-cases (r.run_id == run_id)) [
  | inl t ↦ ground (arith, (h r).0, (h r).1)
  | inr t ↦ ground (arith, find_status-update run_id f status rows h)
]

-- How a Run that is driven to its end comes out, by what the scheduler holds: it is parked where a
-- gate of the Workflow awaits; otherwise it succeeded where no result is a failure, and failed where
-- one is.
pub data IsRunEnd (c : Context) (s : Scheduler) : RunStatus → Type 0 where
  ends_parked :
      (id : String)
      → has id (ids c.ordered) ≡ true
      → has id s.awaiting ≡ true
      → IsRunEnd c s RunStatus.parked
  ends_succeeded :
      ((id : String) → has id (ids c.ordered) ≡ true → has id s.awaiting ≡ false)
      → All (λ r. r.failure_kind ≡ none) s.results
      → IsRunEnd c s RunStatus.succeeded
  ends_failed :
      ((id : String) → has id (ids c.ordered) ≡ true → has id s.awaiting ≡ false)
      → exists_in (λ r. is_some r.failure_kind) s.results ≡ true
      → IsRunEnd c s RunStatus.failed

kept-one :
    (f : String → Bool) (xs : List String)
    → is_nonempty (keep f xs) ≡ true
    → (id : String) × (has id xs ≡ true) × (f id ≡ true)
kept-one f [] h = absurd (ground arith)
kept-one f (x ∷ xs) h = elim (Bool-cases (f x)) [
  | inl e ↦ (x, ground (arith, eq_refl x), e)
  | inr e ↦ let (id, m, g) = kept-one f xs (ground arith) in (id, ground arith, g)
]

kept-none :
    (f : String → Bool) (xs : List String)
    → is_nonempty (keep f xs) ≡ false
    → (id : String) → has id xs ≡ true
    → f id ≡ false
kept-none f [] h id m = absurd (ground arith)
kept-none f (x ∷ xs) h id m = elim (Bool-cases (f x)) [
  | inl e ↦ absurd (ground arith)
  | inr e ↦ ground (arith, eq_iff id x, kept-none f xs (ground arith) id)
]

every-succeeded :
    (rs : List NodeResult) → every succeeded rs ≡ true → All (λ r. r.failure_kind ≡ none) rs
unfolding succeeded
every-succeeded [] h = tt
every-succeeded (r ∷ rs) h = elim (Option-cases r.failure_kind) [
  | inl e ↦ (e, every-succeeded rs (ground arith))
  | inr (k, e) ↦ absurd (ground arith)
]

some_failed :
    (rs : List NodeResult)
    → every succeeded rs ≡ false
    → exists_in (λ r. is_some r.failure_kind) rs ≡ true
unfolding succeeded
some_failed [] h = absurd (ground arith)
some_failed (r ∷ rs) h = ground (arith, some_failed rs)

run_result-IsRunEnd :
    (c : Context) (s : Scheduler) → IsRunEnd c s (run_result_status (run_result c s))
unfolding run_result_status run_succeeded rejected parked run_result
run_result-IsRunEnd c s =
    elim (Bool-cases (is_nonempty (keep (λ id. has id s.awaiting) (ids c.ordered)))) [
      | inl e ↦
          let (id, m, g) = kept-one (λ id. has id s.awaiting) (ids c.ordered) e in
          subst (IsRunEnd c s) (ground arith) (IsRunEnd.ends_parked id m g)
      | inr e ↦
          let idle = kept-none (λ id. has id s.awaiting) (ids c.ordered) e in
          elim (Bool-cases (every succeeded s.results)) [
            | inl g ↦
                subst (IsRunEnd c s) (ground arith)
                  (IsRunEnd.ends_succeeded idle (every-succeeded s.results g))
            | inr g ↦
                subst (IsRunEnd c s) (ground arith)
                  (IsRunEnd.ends_failed idle (some_failed s.results g))
          ]
    ]

finalize_run-recorded :
    (c : Context) (now : String) (s : Scheduler)
    → has_run c.run_id s.state ≡ true
    → run_status c.run_id (finalize_run c now s).state ≡ some (run_result_status (run_result c s))
unfolding finalize_run record_run_parked record_run_finished run_status has_run
finalize_run-recorded c now s h = elim (Bool-cases (parked (run_result c s))) [
  | inl e ↦
      rw (e, finalize_run)
        (find_status-update c.run_id (λ r. record r { status = RunStatus.parked }) RunStatus.parked
          s.state.runs (λ r. (refl, refl)) h)
  | inr e ↦
      rw (e, finalize_run) (find_status-update c.run_id _ _ s.state.runs (λ r. (refl, refl)) h)
]

-- A Run that is driven to its end, and that State has a row of, has in State the status that its end
-- calls for: parked where a gate of the Workflow awaits; otherwise succeeded where no result is a
-- failure, and failed where one is.
pub finalize_run-run_status :
    (c : Context) (now : String) (s : Scheduler)
    → has_run c.run_id s.state ≡ true
    → (t : RunStatus) × (run_status c.run_id (finalize_run c now s).state ≡ some t) × IsRunEnd c s t
finalize_run-run_status c now s h =
    (run_result_status (run_result c s), finalize_run-recorded c now s h, run_result-IsRunEnd c s)
