-- ===== src/Controller/Entries.antt =====
-- controller.py: the entry points of loop-until-done and of adversarial verification, and what each
-- comes to.
pub mod Kept
use cli_agentic_workflow.Prelude.{
  List, arith, ◌>>=◌, ◌≡◌, inr, [], Bool-cases, false, none, Dict, ◌++◌, ◌∷◌, >>=-eq-ok, ok,
  if◌then◌else◌, true, some, ◌⊎◌, Option-cases, length, Option, String, inl,
}
use cli_agentic_workflow.Value.{Value, Fields}
use cli_agentic_workflow.State.{StateStore}
use cli_agentic_workflow.Evaluate.{Output}
use cli_agentic_workflow.Controller.Drive.{
  judge_done, judge_verification, loop_policy, adversarial_policy, drive, run_group, resume_group,
  Step, judge_reject,
}
use cli_agentic_workflow.Controller.Group.{
  GroupStatus, ControllerSpec, AdversarialSpec, IterationResult, GroupResult, World, Runner,
  evaluate_node_output, holds, persist_group_state,
}
use cli_agentic_workflow.Controller.Drive.Outcome.{
  all_succeeded, IsEnded, all_succeeded-append, run_group-IsOutcome, HasRecord,
}
use cli_agentic_workflow.Model.Predicate.{Predicate}
use cli_agentic_workflow.Executor.Outcome.{status}
use cli_agentic_workflow.Executor.Skips.{verdict}

module _ (r : Runner) (group_id : String) where
  abbrev pub drive_until_done :
      ControllerSpec → Fields → List IterationResult → Option Value → World → Step
  drive_until_done spec = drive r group_id (loop_policy spec)

  abbrev pub run_loop_until_done : ControllerSpec → Fields → World → Step
  run_loop_until_done spec = run_group r group_id (loop_policy spec)

  abbrev pub resume_loop_until_done : ControllerSpec → Fields → World → Step
  resume_loop_until_done spec = resume_group r group_id (loop_policy spec)

  abbrev pub drive_adversarial :
      AdversarialSpec → Fields → List IterationResult → Option Value → World → Step
  drive_adversarial spec = drive r group_id (adversarial_policy spec)

  abbrev pub run_adversarial_verification : AdversarialSpec → Fields → World → Step
  run_adversarial_verification spec = run_group r group_id (adversarial_policy spec)

  abbrev pub resume_adversarial_verification : AdversarialSpec → Fields → World → Step
  resume_adversarial_verification spec = resume_group r group_id (adversarial_policy spec)

-- How a loop ends. A predicate is read on the output that the State of the last iteration holds.
pub data IsLoopEnd (spec : ControllerSpec) (dirs : Dict StateStore)
    : GroupStatus → List IterationResult → Type 0 where
  done :
      (before : List IterationResult) (last : IterationResult) (output : Option Output)
      → all_succeeded (before ++ last ∷ []) ≡ true
      → evaluate_node_output dirs last.run_id spec.evaluate_node ≡ ok output
      → holds spec.evaluate_node output spec.done ≡ ok true
      → IsLoopEnd spec dirs GroupStatus.done (before ++ last ∷ [])
  exhausted :
      (iterations : List IterationResult)
      → length iterations ≡ spec.max_iterations
      → all_succeeded iterations ≡ true
      → IsLoopEnd spec dirs GroupStatus.exhausted iterations
  failed :
      (before : List IterationResult) (last : IterationResult)
      → all_succeeded before ≡ true
      → last.succeeded ≡ false
      → IsLoopEnd spec dirs GroupStatus.failed (before ++ last ∷ [])

-- How a verification ends: `reject` counts only where `accept` does not hold.
pub data IsVerificationEnd (spec : AdversarialSpec) (dirs : Dict StateStore)
    : GroupStatus → List IterationResult → Type 0 where
  accepted :
      (before : List IterationResult) (last : IterationResult) (output : Option Output)
      → all_succeeded (before ++ last ∷ []) ≡ true
      → evaluate_node_output dirs last.run_id spec.verify_node ≡ ok output
      → holds spec.verify_node output spec.accept ≡ ok true
      → IsVerificationEnd spec dirs GroupStatus.accepted (before ++ last ∷ [])
  rejected :
      (before : List IterationResult) (last : IterationResult) (output : Option Output)
      (reject : Predicate)
      → all_succeeded (before ++ last ∷ []) ≡ true
      → evaluate_node_output dirs last.run_id spec.verify_node ≡ ok output
      → holds spec.verify_node output spec.accept ≡ ok false
      → spec.reject ≡ some reject
      → holds spec.verify_node output reject ≡ ok true
      → IsVerificationEnd spec dirs GroupStatus.rejected (before ++ last ∷ [])
  capped :
      (iterations : List IterationResult)
      → length iterations ≡ spec.max_rounds
      → all_succeeded iterations ≡ true
      → IsVerificationEnd spec dirs GroupStatus.rejected iterations
  failed :
      (before : List IterationResult) (last : IterationResult)
      → all_succeeded before ≡ true
      → last.succeeded ≡ false
      → IsVerificationEnd spec dirs GroupStatus.failed (before ++ last ∷ [])

judge_done-holds :
    (spec : ControllerSpec) (output : Option Output) (verdict : GroupStatus)
    → judge_done spec output ≡ ok (some verdict)
    → (verdict ≡ GroupStatus.done) × (holds spec.evaluate_node output spec.done ≡ ok true)
unfolding judge_done
judge_done-holds spec output verdict e =
    let (b, f, g) = >>=-eq-ok (holds spec.evaluate_node output spec.done) _ e in
    elim (Bool-cases b) [ inl t ↦ (ground arith, ground arith) | inr t ↦ absurd (ground arith) ]

loop_end :
    (spec : ControllerSpec) (dirs : Dict StateStore) (verdict : GroupStatus)
    (iterations : List IterationResult)
    → IsEnded (loop_policy spec) dirs verdict iterations
    → IsLoopEnd spec dirs verdict iterations
loop_end spec dirs verdict iterations (IsEnded.capped its n a) = IsLoopEnd.exhausted its n a
loop_end spec dirs verdict iterations (IsEnded.broken before last a f) =
    IsLoopEnd.failed before last a f
loop_end spec dirs verdict iterations (IsEnded.judged before last output t a f o j) =
    let (g, h) = judge_done-holds spec output t j in
    rw g (IsLoopEnd.done before last output (all_succeeded-append before last a f) o h)

-- A loop that runs to its end is done, exhausted or failed, by what its last Run put out, how many
-- Runs it took, or how the last of them went; group.json has the same
-- status and iterations.
pub run_loop_until_done-IsLoopEnd :
    (r : Runner) (group_id : String) (spec : ControllerSpec) (base : Fields) (w w' : World)
    (result : GroupResult)
    → run_loop_until_done r group_id spec base w ≡ ok (result, w')
    → IsLoopEnd spec w'.dirs result.status result.iterations
      × HasRecord w' result.status result.iterations
run_loop_until_done-IsLoopEnd r group_id spec base w w' result e =
    let o = run_group-IsOutcome r group_id (loop_policy spec) base w w' result e in
    (loop_end spec w'.dirs result.status result.iterations o.ended, o.persisted)

abbrev Judged : AdversarialSpec → Option Output → GroupStatus → Type 0
Judged spec output verdict =
    ((verdict ≡ GroupStatus.accepted) × (holds spec.verify_node output spec.accept ≡ ok true))
    ⊎ ((verdict ≡ GroupStatus.rejected)
        × ((holds spec.verify_node output spec.accept ≡ ok false)
            × ((p : Predicate) × ((spec.reject ≡ some p)
                  × (holds spec.verify_node output p ≡ ok true)))))

judge_reject-holds :
    (spec : AdversarialSpec) (output : Option Output) (verdict : GroupStatus)
    → judge_reject spec output ≡ ok (some verdict)
    → (verdict ≡ GroupStatus.rejected)
      × ((p : Predicate) × ((spec.reject ≡ some p) × (holds spec.verify_node output p ≡ ok true)))
judge_reject-holds spec output verdict e = elim (Option-cases spec.reject) [
  | inl f ↦ absurd (ground arith)
  | inr (p, f) ↦
      let e' : (holds spec.verify_node output p >>= λ b.
      ok (if b then some GroupStatus.rejected else none))
          ≡ ok (some verdict) =
        ground arith in
      let (b, g, h) = >>=-eq-ok (holds spec.verify_node output p) _ e' in
      elim (Bool-cases b) [
        | inl t ↦ (ground arith, (p, (f, ground arith)))
        | inr t ↦ absurd (ground arith)
      ]
]

judge_verification-Judged :
    (spec : AdversarialSpec) (output : Option Output) (verdict : GroupStatus)
    → judge_verification spec output ≡ ok (some verdict)
    → Judged spec output verdict
unfolding judge_verification
judge_verification-Judged spec output verdict e =
    let (b, f, g) = >>=-eq-ok (holds spec.verify_node output spec.accept) _ e in
    elim (Bool-cases b) [
      | inl t ↦ inl (ground arith, ground arith)
      | inr t ↦
          let (k, rest) = judge_reject-holds spec output verdict (ground arith) in
          inr (k, (ground arith, rest))
    ]

verification_end :
    (spec : AdversarialSpec) (dirs : Dict StateStore) (verdict : GroupStatus)
    (iterations : List IterationResult)
    → IsEnded (adversarial_policy spec) dirs verdict iterations
    → IsVerificationEnd spec dirs verdict iterations
verification_end spec dirs verdict iterations (IsEnded.capped its n a) =
    IsVerificationEnd.capped its n a
verification_end spec dirs verdict iterations (IsEnded.broken before last a f) =
    IsVerificationEnd.failed before last a f
verification_end spec dirs verdict iterations (IsEnded.judged before last output t a f o j) =
    let all = all_succeeded-append before last a f in
    elim (judge_verification-Judged spec output t j) [
      | inl (g, h) ↦ rw g (IsVerificationEnd.accepted before last output all o h)
      | inr (g, (h, (p, (i, k)))) ↦
          rw g (IsVerificationEnd.rejected before last output p all o h i k)
    ]

-- A verification that runs to its end is accepted by its last output, or rejected by it where it is
-- not accepted, or rejected at the cap, or failed with its last Run; group.json has the same
-- status and iterations.
pub run_adversarial_verification-IsVerificationEnd :
    (r : Runner) (group_id : String) (spec : AdversarialSpec) (base : Fields) (w w' : World)
    (result : GroupResult)
    → run_adversarial_verification r group_id spec base w ≡ ok (result, w')
    → IsVerificationEnd spec w'.dirs result.status result.iterations
      × HasRecord w' result.status result.iterations
run_adversarial_verification-IsVerificationEnd r group_id spec base w w' result e =
    let o = run_group-IsOutcome r group_id (adversarial_policy spec) base w w' result e in
    (verification_end spec w'.dirs result.status result.iterations o.ended, o.persisted)
