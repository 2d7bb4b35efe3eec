-- ===== src/Executor/Attempts.antt =====
-- executor.py, lines 772-853: what becomes of a finished Attempt.
use cli_agentic_workflow.Prelude.{
  ℕ, ◌+◌, String, [], ◌∷◌, ◌++◌, none, some, Bool, ◌&&◌, leb, ok, raised, ◌>>=◌, get, put,
  if◌then◌else◌,
}
use cli_agentic_workflow.State.{record_attempt, record_node_finished}
use cli_agentic_workflow.Model.Node.{Node}
use cli_agentic_workflow.Executor.Outcome.{
  NodeResult, succeeded, status, retryable, normalized_output,
}
use cli_agentic_workflow.Executor.Scheduler.{
  Context, Scheduler, Step, Event, key_error, append_event, written, release_dependents,
}
use cli_agentic_workflow.Executor.Skips.{skip_failed_dependents}

-- `_add_result`
abbrev pub add_result : NodeResult → Scheduler → Scheduler
add_result r s = record s { results = s.results ++ r ∷ [] }

module _ (c : Context) where
  -- `_record_attempt`, at the Node's Attempt number.
  unfoldable pub record_attempt_of : String → ℕ → NodeResult → Scheduler → Step
  record_attempt_of id k r s =
      written
        (record_attempt c.run_id id k r.started_at r.finished_at r.exit_status (normalized_output r)
          s.state)
        s
      >>= λ s'. ok (append_event (Event.node_finished id k r.exit_status (status r)) s')

  abbrev pub finish_node : String → NodeResult → Scheduler → Scheduler
  finish_node id r s = record s { state = record_node_finished c.run_id id (status r) none s.state }

  -- `_retries_remaining`
  abbrev pub retries_remaining : Node → ℕ → Bool
  retries_remaining n k = leb k n.retries

  -- The three ends of `_handle_result`.
  unfoldable pub on_succeeded : Node → NodeResult → Scheduler → Step
  on_succeeded n r s = ok (release_dependents c n.id (add_result r (finish_node n.id r s)))

  unfoldable pub on_retry : Node → ℕ → NodeResult → Scheduler → Step
  on_retry n k r s = ok (
      append_event (Event.node_retrying n.id (k + 1) r.failure_kind)
        (record s { attempt = put n.id (k + 1) s.attempt }))

  unfoldable pub on_failed : Node → NodeResult → Scheduler → Step
  on_failed n r s = skip_failed_dependents c n.id (add_result r (finish_node n.id r s))

  abbrev pub handle_at : Node → ℕ → NodeResult → Scheduler → Step
  handle_at n k result s = record_attempt_of n.id k result s >>= λ s'.
      let terminal = record result { attempt = k } in
      if succeeded terminal
      then on_succeeded n terminal s'
      else if retryable terminal && retries_remaining n k
      then on_retry n k terminal s'
      else on_failed n terminal s'

  unfoldable pub handle_result : Node → NodeResult → Scheduler → Step
  handle_result n result s = elim (get n.id s.attempt) [
    | none ↦ raised key_error
    | some k ↦ handle_at n k result s
  ]

  -- `_record_finished` and the result that the crash path adds.
  abbrev pub finish_at : String → ℕ → NodeResult → Scheduler → Step
  finish_at id k result s = record_attempt_of id k result s >>= λ s'.
      ok (add_result (record result { attempt = k }) (finish_node id result s'))

  unfoldable pub record_finished : String → NodeResult → Scheduler → Step
  record_finished id result s = elim (get id s.attempt) [
    | none ↦ raised key_error
    | some k ↦ finish_at id k result s
  ]
