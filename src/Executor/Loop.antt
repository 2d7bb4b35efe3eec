-- ===== src/Executor/Loop.antt =====
-- executor.py, lines 1037-1195: the readiness loop, the crash path, and the Run's final status.
pub mod Final
use cli_agentic_workflow.Prelude.{
  String, List, [], ◌∷◌, Option, none, some, not, ◌==◌, has, keep, ok, raised, Result, ◌>>=◌,
  if◌then◌else◌,
}
use cli_agentic_workflow.Status.{NodeStatus}
use cli_agentic_workflow.State.{
  StateStore, record_node_finished, record_run_errored, record_run_parked, record_run_finished,
}
use cli_agentic_workflow.Model.Node.{ids}
use cli_agentic_workflow.Model.Order.{by_id}
use cli_agentic_workflow.Executor.Outcome.{NodeResult, RunResult, parked, run_result_status}
use cli_agentic_workflow.Executor.Scheduler.{
  Context, Scheduler, Step, Error, Event, key_error, append_event, task_crash,
}
use cli_agentic_workflow.Executor.Launch.{launch_ready}
use cli_agentic_workflow.Executor.Attempts.{handle_result, record_finished}

-- How a task ended: with a result, whose `node_id` is that of its Node, or raising or cancelled.
pub data Done : Type 0 where
  finished : NodeResult → Done
  crashed : (node_id error : String) → Done

abbrev pub remove : String → List String → List String
remove id = keep (λ x. not (x == id))

module _ (c : Context) where
  abbrev pub pop_task : String → Scheduler → Scheduler
  pop_task id s = record s { in_flight = remove id s.in_flight }

  -- One finished task: `self._in_flight[task]`, its removal, and its result.
  unfoldable pub handle_finished : NodeResult → Scheduler → Step
  handle_finished result s =
      if has result.node_id s.in_flight
      then elim (by_id c.ordered result.node_id) [
        | none ↦ raised key_error
        | some n ↦ handle_result c n result (pop_task result.node_id s)
      ]
      else raised key_error

  abbrev first_crash : Option String → String → Option String
  first_crash none error = some error
  first_crash (some e) error = some e

  -- A completed batch, in any order: every result is handled before the first crash is raised.
  unfoldable pub handle_batch :
      Option String → List Done → Scheduler → Result Error (Option String × Scheduler)
  handle_batch crash [] s = ok (crash, s)
  handle_batch crash (Done.crashed id error ∷ batch) s =
      handle_batch (first_crash crash error) batch s
  handle_batch crash (Done.finished result ∷ batch) s =
      handle_finished result s >>= handle_batch crash batch

  abbrev pub launch_or_raise : Option String × Scheduler → Step
  launch_or_raise (none, s) = launch_ready c s
  launch_or_raise (some error, s) = raised (task_crash error)

  -- One round of `while self._in_flight`.
  unfoldable pub round : List Done → Scheduler → Step
  round batch s = handle_batch none batch s >>= launch_or_raise

  -- The rounds of a schedule: the batches that `asyncio.wait` returns, one after the other.
  unfoldable pub rounds : List (List Done) → Scheduler → Step
  rounds [] s = ok s
  rounds (batch ∷ batches) s = round batch s >>= rounds batches

  -- `run`: the first launch, then the rounds.
  unfoldable pub run : List (List Done) → Scheduler → Step
  run batches s = launch_ready c s >>= rounds batches

  -- `_drain_in_flight`: the siblings that had finished are recorded, and leave `in_flight`.
  unfoldable pub drain_in_flight : List (String × NodeResult) → Scheduler → Step
  unfolding record_finished
  drain_in_flight [] s = ok s
  drain_in_flight ((id, result) ∷ done) s =
      record_finished c id result (pop_task id s) >>= drain_in_flight done

  unfoldable pub run_result : Scheduler → RunResult
  run_result s = record {
    run_id = c.run_id;
    node_results = s.results;
    skipped_node_ids = s.skipped;
    skipped_blockers = s.skipped_blockers;
    skipped_causes = s.skipped_causes;
    awaiting_node_ids = keep (λ id. has id s.awaiting) (ids c.ordered);
    rejected_node_ids = [];
  }

  abbrev error_nodes : List String → StateStore → StateStore
  error_nodes [] db = db
  error_nodes (id ∷ in_flight) db =
      error_nodes in_flight (record_node_finished c.run_id id NodeStatus.errored none db)

  -- `_finalize_crashed_run`
  unfoldable pub finalize_crashed_run : (error now : String) → Scheduler → Scheduler
  finalize_crashed_run error now s =
      append_event (Event.run_errored error s.in_flight) (record s {
        state = record_run_errored c.run_id error now (error_nodes s.in_flight s.state);
      })

  -- The end of `_drive_scheduler`, after the loop returned.
  unfoldable pub finalize_run : (now : String) → Scheduler → Scheduler
  unfolding run_result parked run_result_status
  finalize_run now s =
      if parked (run_result s)
      then record s { state = record_run_parked c.run_id s.state }
      else append_event (Event.run_finished (run_result_status (run_result s))) (record s {
        state = record_run_finished c.run_id (run_result_status (run_result s)) now s.state;
      })
