-- ===== src/Controller/Drive.antt =====
-- controller.py: loop-until-done and adversarial verification. Both drive one loop, each by its own
-- verdict, its own cap and the status that reaching the cap ends with.
pub mod Ends
pub mod Outcome
use cli_agentic_workflow.Prelude.{
  ℕ, zero, suc, ◌-◌, String, List, [], ◌∷◌, ◌++◌, Option, none, some, Bool, true, false, not, ◌==◌,
  has, Dict, get, map, Result, ok, raised, raise_if, ◌>>=◌, ◌>>◌, length, ltb, if◌then◌else◌,
}
use cli_agentic_workflow.Value.{Value, Fields}
use cli_agentic_workflow.State.{StateStore, run_status}
use cli_agentic_workflow.Model.Node.{Workflow, ids}
use cli_agentic_workflow.Evaluate.{Output}
use cli_agentic_workflow.Executor.Outcome.{RunResult, run_succeeded}
use cli_agentic_workflow.Executor.Resume.{is_resumable}
use cli_agentic_workflow.Controller.Materialize.{
  ControllerError, FeedbackSpec, Substitution, no_such_node, no_run_group, already_finished,
  out_of_fuel, feedback_substitution, materialize_iteration_raw,
}
use cli_agentic_workflow.Controller.Group.{
  GroupStatus, ControllerSpec, AdversarialSpec, IterationResult, GroupResult, GroupEntry,
  GroupState, World, Runner, open_state, evaluate_node_output, next_feedback, record_membership,
  holds, persist_group_state,
}

-- What the two Controllers differ in.
pub record Policy : Type 0 where
  pub cap : ℕ
  pub cap_status : GroupStatus
  pub node : String
  pub feedback : Option FeedbackSpec
  -- The verdict on a succeeded Run, from the node's output.
  pub judge : Option Output → Result ControllerError (Option GroupStatus)
  -- What a resume refuses.
  pub is_terminal : GroupStatus → Bool

abbrev pub Step : Type 0
Step = Result ControllerError (GroupResult × World)

abbrev pub group_result : GroupStatus → List IterationResult → GroupResult
group_result status iterations = record { status = status; iterations = iterations; winner = none }

-- The group's last write, and the result that goes with it.
abbrev pub finish : List IterationResult → GroupStatus → World → Step
finish completed status w =
    ok (group_result status completed, persist_group_state completed status w)

abbrev pub entry : ℕ → RunResult → IterationResult
entry index result = record {
  iteration_index = index;
  run_id = result.run_id;
  succeeded = run_succeeded result;
}

-- `completed[-1]`, and what stands before it.
abbrev pub split_last {ℓ} : {A : Type ℓ} → List A → Option (List A × A)
split_last [] = none
split_last (x ∷ xs) = elim (split_last xs) [
  | none ↦ some ([], x)
  | some (before, last) ↦ some (x ∷ before, last)
]

-- The loop's verdict: `done`.
unfoldable pub judge_done :
    ControllerSpec → Option Output → Result ControllerError (Option GroupStatus)
unfolding holds
judge_done spec output = holds spec.evaluate_node output spec.done >>= λ b.
    ok (if b then some GroupStatus.done else none)

-- The verifier's: `accept` before `reject`.
abbrev pub judge_reject :
    AdversarialSpec → Option Output → Result ControllerError (Option GroupStatus)
judge_reject spec output = elim spec.reject [
  | none ↦ ok none
  | some p ↦
      holds spec.verify_node output p >>= λ b. ok (if b then some GroupStatus.rejected else none)
]

abbrev pub accept_or :
    Result ControllerError (Option GroupStatus) → Bool → Result ControllerError (Option GroupStatus)
accept_or other true = ok (some GroupStatus.accepted)
accept_or other false = other

unfoldable pub judge_verification :
    AdversarialSpec → Option Output → Result ControllerError (Option GroupStatus)
unfolding holds
judge_verification spec output =
    holds spec.verify_node output spec.accept >>= accept_or (judge_reject spec output)

abbrev pub loop_terminal : GroupStatus → Bool
loop_terminal GroupStatus.done = true
loop_terminal GroupStatus.exhausted = true
loop_terminal _ = false

abbrev pub adversarial_terminal : GroupStatus → Bool
adversarial_terminal GroupStatus.accepted = true
adversarial_terminal GroupStatus.rejected = true
adversarial_terminal _ = false

abbrev pub loop_policy : ControllerSpec → Policy
loop_policy spec = record {
  cap = spec.max_iterations;
  cap_status = GroupStatus.exhausted;
  node = spec.evaluate_node;
  feedback = spec.feedback;
  judge = judge_done spec;
  is_terminal = loop_terminal;
}

abbrev pub adversarial_policy : AdversarialSpec → Policy
adversarial_policy spec = record {
  cap = spec.max_rounds;
  cap_status = GroupStatus.rejected;
  node = spec.verify_node;
  feedback = spec.feedback;
  judge = judge_verification spec;
  is_terminal = adversarial_terminal;
}

module _ (r : Runner) (group_id : String) where
  -- One Run of the group: the raw workflow, its validation, the check that it has the node, the Run,
  -- and the membership of its State.
  unfoldable pub run_iteration :
      String
      → Fields
      → List Substitution
      → ℕ
      → Dict StateStore
      → Result ControllerError (RunResult × Dict StateStore)
  run_iteration node base substitutions index dirs =
      materialize_iteration_raw base substitutions >>= λ raw. r.normalize raw >>= λ workflow.
      raise_if (not (has node (ids workflow.nodes))) (no_such_node node)
      >> (r.execute workflow dirs >>= λ ran.
          record_membership group_id ran.0.run_id index ran.1 >>= λ dirs'. ok (ran.0, dirs'))

  module _ (p : Policy) (base : Fields) where
    -- `_iteration_verdict` and `_verification_verdict`
    unfoldable pub iteration_verdict :
        RunResult → Dict StateStore → Result ControllerError (Option GroupStatus)
    iteration_verdict result dirs =
        if run_succeeded result
        then (evaluate_node_output dirs result.run_id p.node >>= p.judge)
        else ok (some GroupStatus.failed)

    -- What a round comes to with its verdict: the end of the group, or the next round.
    abbrev pub on_verdict :
        (next : List IterationResult → Option Value → World → Step)
        → List IterationResult
        → String
        → World
        → Option GroupStatus
        → Step
    on_verdict next completed run_id w (some status) = finish completed status w
    on_verdict next completed run_id w none =
        next_feedback p.feedback p.node w.dirs run_id >>= λ feedback.
        next completed feedback (persist_group_state completed GroupStatus.running w)

    -- One round of the loop.
    unfoldable pub drive_round :
        (next : List IterationResult → Option Value → World → Step)
        → List IterationResult
        → Option Value
        → World
        → Step
    drive_round next completed feedback w =
        let index = length completed in
        run_iteration p.node base (feedback_substitution p.feedback feedback) index w.dirs
        >>= λ ran.
            let completed' = completed ++ entry index ran.0 ∷ [] in
            iteration_verdict ran.0 ran.1
            >>= on_verdict next completed' ran.0.run_id (record w { dirs = ran.1 })

    -- `while len(completed) < cap`
    unfoldable pub drive_loop : ℕ → List IterationResult → Option Value → World → Step
    drive_loop zero completed feedback w = elim (ltb (length completed) p.cap) [
      | false ↦ finish completed p.cap_status w
      | true ↦ raised out_of_fuel
    ]
    drive_loop (suc fuel) completed feedback w = elim (ltb (length completed) p.cap) [
      | false ↦ finish completed p.cap_status w
      | true ↦ drive_round (drive_loop fuel) completed feedback w
    ]

    -- `_drive_loop` and `_drive_adversarial`: no more rounds than the cap.
    unfoldable pub drive : List IterationResult → Option Value → World → Step
    unfolding drive_loop
    drive = drive_loop p.cap

    -- `run_loop_until_done` and `run_adversarial_verification`, on a new group.
    unfoldable pub run_group : World → Step
    run_group = drive [] none

    -- The loop goes on after the iterations that are recorded, with the last one's feedback.
    unfoldable pub continue : List IterationResult → IterationResult → World → Step
    unfolding drive
    continue before last w = next_feedback p.feedback p.node w.dirs last.run_id >>= λ feedback.
        drive (before ++ last ∷ []) feedback w

    abbrev pub on_resumed_verdict :
        List IterationResult → IterationResult → World → Option GroupStatus → Step
    on_resumed_verdict before last w (some status) = finish (before ++ last ∷ []) status w
    on_resumed_verdict before last w none = continue before last w

    -- The last iteration's Run is resumed in place.
    unfoldable pub resume_last : List IterationResult → IterationResult → World → Step
    resume_last before last w = r.resume last.run_id w.dirs >>= λ ran.
        record_membership group_id ran.0.run_id last.iteration_index ran.1 >>= λ dirs'.
        iteration_verdict ran.0 dirs'
        >>= on_resumed_verdict before (entry last.iteration_index ran.0) (record w { dirs = dirs' })

    unfoldable pub resume_from : Option (List IterationResult × IterationResult) → World → Step
    unfolding drive
    resume_from none w = drive [] none w
    resume_from (some (before, last)) w = open_state last.run_id w.dirs >>= λ db.
        if is_resumable (run_status last.run_id db)
        then resume_last before last w
        else continue before last w

    -- `resume_loop_until_done` and `resume_adversarial_verification`; the spec is the one that
    -- group.json holds.
    unfoldable pub resume_group : World → Step
    unfolding resume_from
    resume_group w = elim w.group [
      | none ↦ raised no_run_group
      | some g ↦
          raise_if (p.is_terminal g.status) already_finished
          >> resume_from (split_last (map (λ e. e.iteration) g.iterations)) w
    ]
