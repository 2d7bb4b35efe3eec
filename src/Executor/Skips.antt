-- ===== src/Executor/Skips.antt =====
-- executor.py, lines 855-1035: recording a skip, and the walk that skips dependents.
use cli_agentic_workflow.Prelude.{
  ℕ, zero, suc, ◌+◌, String, List, [], ◌∷◌, ◌++◌, Option, none, some, Bool, true, false, not, has,
  every, ok, raised, ◌>>=◌, length, map, put, is_some, if◌then◌else◌,
}
use cli_agentic_workflow.Status.{NodeStatus}
use cli_agentic_workflow.State.{SkipCause, record_node_finished, record_node_skipped}
use cli_agentic_workflow.Model.Node.{Node, Join}
use cli_agentic_workflow.Model.Order.{dependents, by_id}
use cli_agentic_workflow.Executor.Scheduler.{
  Context, Scheduler, Step, Event, assertion_error, key_error, out_of_fuel, append_event, written,
  is_terminal, release_dependents,
}

abbrev pub is_blocked : SkipCause → Bool
is_blocked SkipCause.blocked = true
is_blocked _ = false

abbrev pub same : Bool → Bool → Bool
same true b = b
same false b = not b

abbrev pub put_blocker : String → Option String → Scheduler → Scheduler
put_blocker id none s = s
put_blocker id (some b) s = record s { skipped_blockers = put id b s.skipped_blockers }

-- `missing`: an id that `_by_id` lacks.
pub data Verdict : Type 0 where
  pass missing : Verdict
  skip : SkipCause → Option String → Verdict

module _ (c : Context) where
  -- The row: an UPDATE where there is one, else an INSERT.
  abbrev pub write_skip : String → SkipCause → Scheduler → Step
  write_skip id cause s =
      if has id s.started
      then ok (record s {
        state = record_node_finished c.run_id id NodeStatus.skipped (some cause) s.state;
      })
      else written (record_node_skipped c.run_id id (some cause) s.state)
          (record s { started = id ∷ s.started })

  unfoldable pub record_skip : String → SkipCause → Option String → Scheduler → Step
  record_skip id cause blocker s =
      if same (is_blocked cause) (is_some blocker)
      then (write_skip id cause (
            put_blocker id blocker (record s {
              skipped = s.skipped ++ id ∷ [];
              skipped_causes = put id cause s.skipped_causes;
            }))
          >>= λ s'. ok (append_event (Event.node_skipped id cause blocker) s'))
      else raised assertion_error

  -- A walk's queue pairs a dependent with the predecessor that reached it.
  abbrev pub Queue : Type 0
  Queue = List (String × String)

  abbrev pub enqueue : String → Queue
  enqueue id = map (λ d. (d, id)) (dependents c.ordered id)

  -- `_skip_in_walk`; its `queue.extend` stands in the loop.
  unfoldable pub skip_in_walk : String → SkipCause → Option String → Scheduler → Step
  skip_in_walk id cause blocker s =
      record_skip id cause blocker s >>= λ s'. ok (release_dependents c id s')

  -- What the walk does with one dependent: nothing, or a skip with its cause and blocker.
  unfoldable pub verdict : Bool → String → String → Scheduler → Node → Verdict
  verdict join_aware origin orphaning s n =
      if join_aware
      then elim n.join [
        | Join.any ↦
            if every (λ need. has need s.skipped) n.needs
            then Verdict.skip SkipCause.all_branches_skipped none
            else Verdict.pass
        | Join.all ↦ Verdict.skip SkipCause.blocked (some orphaning)
      ]
      else Verdict.skip SkipCause.blocked (some origin)

  unfoldable pub judge : Bool → String → String → String → Scheduler → Verdict
  unfolding is_terminal by_id verdict
  judge join_aware origin id orphaning s =
      if is_terminal s id then Verdict.pass else elim (by_id c.ordered id) [
        | none ↦ Verdict.missing
        | some n ↦ verdict join_aware origin orphaning s n
      ]

  -- The `while queue` loop. Each skip adds the node's dependents to the queue.
  unfoldable pub walk_skips : ℕ → Bool → String → Queue → Scheduler → Step
  walk_skips fuel join_aware origin [] s = ok s
  walk_skips zero join_aware origin (e ∷ queue) s = raised out_of_fuel
  walk_skips (suc fuel) join_aware origin ((id, orphaning) ∷ queue) s =
      elim (judge join_aware origin id orphaning s) [
        | Verdict.pass ↦ walk_skips fuel join_aware origin queue s
        | Verdict.missing ↦ raised key_error
        | Verdict.skip cause blocker ↦
            skip_in_walk id cause blocker s
            >>= walk_skips fuel join_aware origin (queue ++ enqueue id)
      ]

  -- The edges of the graph: no node is skipped twice, so a walk pops no more pairs than these and
  -- those that it starts with.
  abbrev pub edges : List Node → ℕ
  edges [] = 0
  edges (n ∷ nodes) = length (dependents c.ordered n.id) + edges nodes

  unfoldable pub propagate_skips : String → Bool → Scheduler → Step
  propagate_skips origin join_aware =
      walk_skips (length (enqueue origin) + edges c.ordered) join_aware origin (enqueue origin)

  unfoldable pub skip_with_cause : String → SkipCause → Option String → Scheduler → Step
  skip_with_cause id cause blocker s =
      if is_terminal s id
      then ok s
      else (record_skip id cause blocker s >>= λ s'.
          propagate_skips id true (release_dependents c id s'))

  unfoldable pub skip_failed_dependents : String → Scheduler → Step
  skip_failed_dependents id = propagate_skips id false
