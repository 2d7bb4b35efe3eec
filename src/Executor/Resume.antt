-- ===== src/Executor/Resume.antt =====
-- executor.py, lines 1097-1398: starting a Run and resuming one, up to the scheduler that they drive.
pub mod Decisions
use cli_agentic_workflow.Prelude.{
  ℕ, ◌+◌, String, List, [], ◌∷◌, ◌++◌, Option, none, some, Bool, true, false, not, ◌==◌, has, map,
  ok, raised, raise_if, Result, ◌>>=◌, ◌>>◌, ltb, Dict, get, put, pos, if◌then◌else◌,
}
use cli_agentic_workflow.Status.{RunStatus, NodeStatus, is_succeeded, is_awaiting}
use cli_agentic_workflow.State.{
  StateStore, Written, empty_store, record_run_started, record_run_finished, record_run_running,
  record_attempt, record_node_finished, run_status, node_statuses, max_attempt,
}
use cli_agentic_workflow.Evaluate.{Output}
use cli_agentic_workflow.Model.Errors.{ConfigError}
use cli_agentic_workflow.Model.Node.{Workflow}
use cli_agentic_workflow.Model.Order.{execution_order}
use cli_agentic_workflow.Executor.Outcome.{RunResult}
use cli_agentic_workflow.Executor.Scheduler.{
  Context, Scheduler, Event, Error, integrity_error, init,
}

pub data RunError : Type 0 where
  concurrency_below_one : RunError
  config_error : ConfigError → RunError
  state_error : Error → RunError
  tampered_snapshot stale_schema : RunError
  not_resumable : Option RunStatus → RunError
  not_awaiting : String → RunError

abbrev pub saved : Written → Result RunError StateStore
saved (ok db) = ok db
saved (raised e) = raised (state_error (integrity_error e))

abbrev pub context_of : String → Workflow → Result RunError Context
context_of run_id w = elim (execution_order w) [
  | raised e ↦ raised (config_error e)
  | ok ordered ↦ ok (record { run_id = run_id; concurrency = w.concurrency; ordered = ordered })
]

-- `_NON_RESUMABLE_RUN_STATUSES`
unfoldable pub is_resumable : Option RunStatus → Bool
is_resumable none = false
is_resumable (some RunStatus.succeeded) = false
is_resumable (some RunStatus.rejected) = false
is_resumable (some _) = true

-- `tuple(dict.fromkeys(ids))`
abbrev pub distinct_from : List String → List String → List String
distinct_from seen [] = []
distinct_from seen (x ∷ xs) =
    if has x seen then distinct_from seen xs else x ∷ distinct_from (x ∷ seen) xs

abbrev pub distinct : List String → List String
distinct = distinct_from []

abbrev pub awaits : Dict NodeStatus → String → Bool
awaits statuses id = elim (get id statuses) [ none ↦ false | some s ↦ is_awaiting s ]

-- Every named Node is an awaiting gate, before anything is written.
unfoldable pub check_decisions : Dict NodeStatus → List String → Result RunError (Unit {0})
check_decisions statuses [] = ok tt
check_decisions statuses (id ∷ rest) =
    raise_if (not (awaits statuses id)) (not_awaiting id) >> check_decisions statuses rest

-- The ids that have a status of which the test holds.
abbrev pub ids_where : (NodeStatus → Bool) → Dict NodeStatus → List String
ids_where test [] = []
ids_where test ((id, s) ∷ rest) = if test s then id ∷ ids_where test rest else ids_where test rest

abbrev pub approval : Output
approval = record {
  exit_status = none;
  stdout = none;
  stderr = none;
  structured_output = none;
  artifacts = none;
  approved = some true;
}

-- What a resume comes to: the Run ended by a rejection, or a scheduler to drive.
pub data Resumed : Type 0 where
  declined : StateStore → List Event → RunResult → Resumed
  driven : Context → Scheduler → Resumed

module _ (run_id now : String) where
  -- `execute_run`, up to the scheduler.
  unfoldable pub start_run :
      (checksum : Workflow → String) → Workflow → Result RunError (Context × Scheduler)
  unfolding execution_order record_run_started init
  start_run checksum w =
      raise_if (ltb w.concurrency 1) concurrency_below_one
      >> (saved (record_run_started run_id w.name (checksum w) now empty_store) >>= λ db.
          context_of run_id w >>= λ c.
          ok (c, init c db (Event.run_started w.name ∷ []) [] [] [] []))

  abbrev reject_each : List String → StateStore → StateStore
  reject_each [] db = db
  reject_each (id ∷ rest) db =
      reject_each rest (record_node_finished run_id id NodeStatus.rejected none db)

  -- The rejections: the gates and the Run go to `rejected`, and nothing is executed.
  unfoldable pub decline : List String → StateStore → Resumed
  decline rejections db =
      Resumed.declined
        (record_run_finished run_id RunStatus.rejected now (reject_each rejections db))
        (map Event.gate_rejected rejections ++ Event.run_finished RunStatus.rejected ∷ [])
        (record {
          run_id = run_id;
          node_results = [];
          skipped_node_ids = [];
          skipped_blockers = [];
          skipped_causes = [];
          awaiting_node_ids = [];
          rejected_node_ids = rejections;
        })

  -- The approvals: an Attempt 1 with the approval for its output, and the gate `succeeded`.
  unfoldable pub approve_each : List String → StateStore → Result RunError StateStore
  approve_each [] db = ok db
  approve_each (id ∷ rest) db =
      saved (record_attempt run_id id 1 now now (pos 0) approval db) >>= λ db'.
      approve_each rest (record_node_finished run_id id NodeStatus.succeeded none db')

  abbrev pub mark_succeeded : List String → Dict NodeStatus → Dict NodeStatus
  mark_succeeded [] statuses = statuses
  mark_succeeded (id ∷ rest) statuses = mark_succeeded rest (put id NodeStatus.succeeded statuses)

  -- A Node that is run again goes on past its recorded Attempts.
  abbrev pub attempt_seeds : StateStore → List String → Dict ℕ
  attempt_seeds db [] = []
  attempt_seeds db (id ∷ rest) =
      (id, elim (max_attempt run_id id db) [ none ↦ 1 | some k ↦ k + 1 ]) ∷ attempt_seeds db rest

  abbrev pub unfinished : NodeStatus → Bool
  unfinished s = not (is_succeeded s)

  -- The seeds of the scheduler, from State as the approvals left it.
  unfoldable pub seed :
      Workflow → Context → List String → List String → Dict NodeStatus → StateStore → Resumed
  unfolding init
  seed w c approvals awaiting_before before db =
      let statuses = mark_succeeded approvals before in
      let open_ids = ids_where unfinished statuses in
      Resumed.driven c (
        init c (record_run_running run_id db)
          (map Event.gate_approved approvals ++ Event.run_resumed w.name ∷ [])
          (ids_where is_succeeded statuses) (attempt_seeds db open_ids) open_ids awaiting_before)

  -- The decisions, validated and taken; any rejection ends the Run.
  unfoldable pub decide :
      Workflow → List String → List String → StateStore → Result RunError Resumed
  unfolding check_decisions decline approve_each seed execution_order
  decide w approvals rejections db =
      let statuses = node_statuses run_id db in
      check_decisions statuses (approvals ++ rejections) >> elim rejections [
        | id ∷ rest ↦ ok (decline (id ∷ rest) db)
        | [] ↦ approve_each approvals db >>= λ db'. context_of run_id w >>= λ c.
            ok (seed w c approvals (ids_where is_awaiting statuses) statuses db')
      ]

  -- `resume_run`, with the workflow that the snapshot holds and the checksum beside it; `has_cause`
  -- says whether the `node` table has its `cause` column.
  unfoldable pub resume_run :
      (checksum : Workflow → String) (stored : String) (has_cause : Bool)
      → Workflow
      → (approvals rejections : List String) → StateStore
      → Result RunError Resumed
  unfolding decide is_resumable
  resume_run checksum stored has_cause w approvals rejections db = do
    raise_if (not (checksum w == stored)) tampered_snapshot
    raise_if (not (is_resumable (run_status run_id db))) (not_resumable (run_status run_id db))
    raise_if (not has_cause) stale_schema
    decide w (distinct approvals) (distinct rejections) db
