-- ===== src/Executor/Launch.antt =====
-- executor.py, lines 696-770: launching, skipping and parking the ready Nodes.
use cli_agentic_workflow.Prelude.{
  ℕ, zero, suc, String, List, [], ◌∷◌, ◌++◌, Option, none, some, Bool, true, false, ◌||◌, has, leb,
  ok, raised, Result, ◌>>=◌, ◌>>◌, length, get, put, if◌then◌else◌,
}
use cli_agentic_workflow.State.{
  SkipCause, record_node_running, record_node_started, record_node_awaiting,
}
use cli_agentic_workflow.Model.Predicate.{Predicate, PredicateRef}
use cli_agentic_workflow.Model.Predicate.Fold.{leaf_refs}
use cli_agentic_workflow.Model.Node.{Node, is_gate}
use cli_agentic_workflow.Evaluate.{Output, evaluate_predicate}
use cli_agentic_workflow.Executor.Scheduler.{
  Context, Scheduler, Step, Error, Event, assertion_error, out_of_fuel, append_event, written,
  ready_nodes, output_of,
}
use cli_agentic_workflow.Executor.Skips.{skip_with_cause}

-- What a pass does at a Node: go on, or break off; with whether it made progress.
pub data Visit : Type 0 where
  onward stop : Bool → Scheduler → Visit

abbrev pub go_on :
    (Bool → Scheduler → Result Error (Bool × Scheduler))
    → Bool
    → Visit
    → Result Error (Bool × Scheduler)
go_on next progressed (Visit.onward p s) = next (p || progressed) s
go_on next progressed (Visit.stop p s) = ok (p || progressed, s)

abbrev pub again : (Scheduler → Step) → Bool × Scheduler → Step
again next (true, s) = next s
again next (false, s) = ok s

module _ (c : Context) where
  -- The leaves are all evaluated, in order, before any result is combined: so the first output
  -- that cannot be read raises.
  abbrev pub outputs_present : Scheduler → List PredicateRef → Result Error (Unit {0})
  outputs_present s [] = ok tt
  outputs_present s (r ∷ refs) = output_of c s r.node >>= λ o. outputs_present s refs

  abbrev pub output_or_none : Scheduler → String → Option Output
  output_or_none s id = elim (output_of c s id) [ ok o ↦ o | raised e ↦ none ]

  -- `evaluate_predicate(node.when, self._output_of)`
  unfoldable pub evaluate_when : Scheduler → Predicate → Result Error Bool
  evaluate_when s p = elim (leaf_refs p) [
    | none ↦ raised assertion_error
    | some refs ↦ outputs_present s refs >> elim (evaluate_predicate (output_or_none s) p) [
      | none ↦ raised assertion_error
      | some b ↦ ok b
    ]
  ]

  -- `node.when is None or evaluate_predicate(...)`
  unfoldable pub gate_open : Scheduler → Node → Result Error Bool
  gate_open s n = elim n.when [ none ↦ ok true | some p ↦ evaluate_when s p ]

  -- `_park_gate`
  unfoldable pub park_gate : Node → Scheduler → Step
  park_gate n s =
      if has n.id s.awaiting
      then ok s
      else (written (record_node_awaiting c.run_id n.id s.state)
            (record s { awaiting = n.id ∷ s.awaiting })
          >>= λ s'. ok (
              if has n.id s.awaiting_already
              then s'
              else append_event (Event.gate_awaiting n.id) s'))

  -- `self._attempt.setdefault(node.id, 1)`
  abbrev pub attempt_of : String → Scheduler → ℕ
  attempt_of id s = elim (get id s.attempt) [ none ↦ 1 | some k ↦ k ]

  -- The row of a Node that is launched: an UPDATE where there is one, else an INSERT.
  abbrev write_started : String → Scheduler → Step
  write_started id s =
      if has id s.started
      then ok (record s { state = record_node_running c.run_id id s.state })
      else written (record_node_started c.run_id id s.state) (record s { started = id ∷ s.started })

  unfoldable pub launch : Node → Scheduler → Step
  launch n s =
      let k = attempt_of n.id s in
      write_started n.id (record s { attempt = put n.id k s.attempt }) >>= λ s'. ok (
        append_event (Event.node_started n.id k)
          (record s' { in_flight = s'.in_flight ++ n.id ∷ [] }))

  unfoldable pub visit : Node → Scheduler → Result Error Visit
  visit n s =
      if is_gate n
      then (gate_open s n >>= λ open_gate.
          if open_gate
          then (park_gate n s >>= λ s'. ok (Visit.onward true s'))
          else (skip_with_cause c n.id SkipCause.when_false none s >>= λ s'.
              ok (Visit.stop true s')))
      else if leb c.concurrency (length s.in_flight)
      then ok (Visit.stop false s)
      else (gate_open s n >>= λ open_gate.
          if open_gate
          then (launch n s >>= λ s'. ok (Visit.onward true s'))
          else (skip_with_cause c n.id SkipCause.when_false none s >>= λ s'.
              ok (Visit.stop true s')))

  -- The `for` loop over the Nodes that were ready when the pass began.
  unfoldable pub launch_pass : Bool → List Node → Scheduler → Result Error (Bool × Scheduler)
  launch_pass progressed [] s = ok (progressed, s)
  launch_pass progressed (n ∷ nodes) s =
      visit n s >>= go_on (λ b s'. launch_pass b nodes s') progressed

  -- `while True`: each pass but the last closes at least one open Node.
  unfoldable pub launch_loop : ℕ → Scheduler → Step
  launch_loop zero s = raised out_of_fuel
  launch_loop (suc fuel) s = launch_pass false (ready_nodes c s) s >>= again (launch_loop fuel)

  unfoldable pub launch_ready : Scheduler → Step
  launch_ready = launch_loop (suc (length c.ordered))
