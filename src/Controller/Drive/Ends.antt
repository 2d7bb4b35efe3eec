-- ===== src/Controller/Drive/Ends.antt =====
-- controller.py: the loop runs no more rounds than its cap.
use cli_agentic_workflow.Prelude.{
  ℕ, zero, suc, ◌+◌, ◌≤◌, String, List, [], ◌∷◌, ◌++◌, Option, none, some, Bool, true, false, not,
  has, Dict, length, length-append, ltb, ◌≡◌, ◌≢◌, refl, sym, ap, ◌∙◌, Result, ok, raised, raise_if,
  ◌>>=◌, arith, Bool-cases, inl, inr, Option-cases,
}
use cli_agentic_workflow.Value.{Value, Items, Fields, field_at}
use cli_agentic_workflow.State.{StateStore}
use cli_agentic_workflow.Model.Node.{Workflow, ids}
use cli_agentic_workflow.Evaluate.{Output}
use cli_agentic_workflow.Executor.Outcome.{RunResult, run_succeeded, status}
use cli_agentic_workflow.Controller.Materialize.{
  ControllerError, Substitution, out_of_fuel, no_such_node, inputs_at, substituted, substitute_node,
  substitute_nodes, refuse_missing, materialize_iteration_raw, feedback_substitution, set_field,
  id_at, dict_of_pairs, applicable,
}
use cli_agentic_workflow.Controller.Group.{
  ControllerSpec, AdversarialSpec, IterationResult, World, Runner, evaluate_node_output,
  next_feedback, record_membership, holds,
}
use cli_agentic_workflow.Controller.Drive.{
  Policy, Step, entry, run_iteration, iteration_verdict, drive_round, drive_loop, drive,
  loop_policy, adversarial_policy, judge_done, judge_verification, run_group,
}

abbrev is_of_program : ControllerError → Bool
is_of_program out_of_fuel = false
is_of_program _ = true

-- A step returns, or raises what the program raises.
abbrev pub ends {ℓ} : {A : Type ℓ} → Result ControllerError A → Bool
ends (ok a) = true
ends (raised e) = is_of_program e

pub ends-bind {ℓ κ} :
    {A : Type ℓ} {B : Type κ} (m : Result ControllerError A) (f : A → Result ControllerError B)
    → ends m ≡ true
    → ((a : A) → m ≡ ok a → ends (f a) ≡ true)
    → ends (m >>= f) ≡ true
ends-bind (ok a) f h k = k a refl
ends-bind (raised e) f h k = h

-- What is asked of the runner: it does not raise the model's own error.
pub record IsProper (r : Runner) : Type 0 where
  pub normalizes : (raw : Fields) → ends (r.normalize raw) ≡ true
  pub executes : (w : Workflow) (dirs : Dict StateStore) → ends (r.execute w dirs) ≡ true
  pub resumes : (run_id : String) (dirs : Dict StateStore) → ends (r.resume run_id dirs) ≡ true

dict_of_pairs-ends : (d : Fields) (pairs : Items) → ends (dict_of_pairs d pairs) ≡ true
dict_of_pairs-ends d Items.nil = refl
dict_of_pairs-ends d
      (Items.cons (Value.list (Items.cons (Value.str k) (Items.cons v Items.nil))) pairs) =
    dict_of_pairs-ends (set_field k v d) pairs
dict_of_pairs-ends d (Items.cons _ pairs) = refl

inputs_at-ends : (d : Fields) → ends (inputs_at d) ≡ true
unfolding inputs_at
inputs_at-ends d = elim (Option-cases (field_at "inputs" d)) [
  | inl e ↦ ground arith
  | inr (Value.list pairs, e) ↦ rw (e, inputs_at) (dict_of_pairs-ends Fields.end pairs)
  | inr (Value.str s, e) ↦ ground arith
  | inr (v, e) ↦ ground arith
]

substituted-ends : (s : List Substitution) (v : Value) → ends (substituted s v) ≡ true
substituted-ends [] v = refl
substituted-ends (x ∷ s) (Value.dict d) = ends-bind (inputs_at d) _ (inputs_at-ends d) (λ i h. refl)
substituted-ends (x ∷ s) _ = refl

substitute_node-ends : (s : List Substitution) (v : Value) → ends (substitute_node s v) ≡ true
unfolding substitute_node
substitute_node-ends s v = elim (Option-cases (id_at v)) [
  | inl e ↦ rw (e, substitute_node) refl
  | inr (id, e) ↦ rw (e, substitute_node) (substituted-ends (applicable s id) v)
]

substitute_nodes-ends :
    (s : List Substitution) (nodes : Items) → ends (substitute_nodes s nodes) ≡ true
unfolding substitute_nodes
substitute_nodes-ends s Items.nil = refl
substitute_nodes-ends s (Items.cons v nodes) =
    ends-bind (substitute_node s v) _ (substitute_node-ends s v) λ v' h.
      ends-bind (substitute_nodes s nodes) _ (substitute_nodes-ends s nodes) (λ nodes' k. refl)

refuse_missing-ends : (xs : List String) (raw : Fields) → ends (refuse_missing xs raw) ≡ true
refuse_missing-ends [] raw = refl
refuse_missing-ends (x ∷ xs) raw = refl

materialize_at :
    (s : List Substitution) (base : Fields) (nodes : Option Value)
    → field_at "nodes" base ≡ nodes
    → ends (materialize_iteration_raw base s) ≡ true
unfolding materialize_iteration_raw
materialize_at [] base nodes e = refl
materialize_at (s ∷ rest) base (some (Value.list nodes)) e =
    rw (e, materialize_iteration_raw)
      (ends-bind (substitute_nodes (s ∷ rest) nodes) _ (substitute_nodes-ends (s ∷ rest) nodes)
        (λ nodes' h. refuse_missing-ends _ _))
materialize_at (s ∷ rest) base nodes e = rw (e, materialize_iteration_raw) refl

module _ (r : Runner) (group_id : String) (proper : IsProper r) where
  record_membership-ends :
      (run_id : String) (index : ℕ) (dirs : Dict StateStore)
      → ends (record_membership group_id run_id index dirs) ≡ true
  unfolding record_membership
  record_membership-ends run_id index dirs = ground arith

  raise_if-ends :
      (b : Bool) (e : ControllerError) → is_of_program e ≡ true → ends (raise_if b e) ≡ true
  raise_if-ends true e h = h
  raise_if-ends false e h = refl

  pub run_iteration-ends :
      (node : String) (base : Fields) (s : List Substitution) (index : ℕ) (dirs : Dict StateStore)
      → ends (run_iteration r group_id node base s index dirs) ≡ true
  unfolding run_iteration
  run_iteration-ends node base s index dirs =
      ends-bind (materialize_iteration_raw base s) _ (materialize_at s base _ refl) λ raw _.
        ends-bind (r.normalize raw) _ (proper.normalizes raw) λ w _.
          ends-bind (raise_if (not (has node (ids w.nodes))) (no_such_node node)) _
            (raise_if-ends _ _ refl)
            λ _ _. ends-bind (r.execute w dirs) _ (proper.executes w dirs) λ ran _.
              ends-bind (record_membership group_id ran.0.run_id index ran.1) _
                (record_membership-ends ran.0.run_id index ran.1) (λ dirs' _. refl)

  module _ (p : Policy) (base : Fields)
      (judges : (o : Option Output) → ends (p.judge o) ≡ true) where
    evaluate_node_output-ends :
        (dirs : Dict StateStore) (run_id node : String)
        → ends (evaluate_node_output dirs run_id node) ≡ true
    unfolding evaluate_node_output
    evaluate_node_output-ends dirs run_id node = ground arith

    iteration_verdict-ends :
        (result : RunResult) (dirs : Dict StateStore)
        → ends (iteration_verdict r group_id p base result dirs) ≡ true
    unfolding iteration_verdict
    iteration_verdict-ends result dirs = elim (Bool-cases (run_succeeded result)) [
      | inl e ↦ rw e (
          ends-bind (evaluate_node_output dirs result.run_id p.node) _
            (evaluate_node_output-ends dirs result.run_id p.node) (λ o _. judges o))
      | inr e ↦ rw e refl
    ]

    next_feedback-ends :
        (dirs : Dict StateStore) (run_id : String)
        → ends (next_feedback p.feedback p.node dirs run_id) ≡ true
    unfolding next_feedback evaluate_node_output
    next_feedback-ends dirs run_id = ground arith

    -- Each round adds an iteration, so there are no more than the cap.
    pub drive_loop-ends :
        (fuel : ℕ) (completed : List IterationResult) (feedback : Option Value) (w : World)
        → p.cap ≤ fuel + length completed
        → ends (drive_loop r group_id p base fuel completed feedback w) ≡ true
    unfolding drive_loop drive_round
    drive_loop-ends zero completed feedback w h = elim (Bool-cases (ltb (length completed) p.cap)) [
      | inl e ↦ absurd (ground arith)
      | inr e ↦ rw (e, drive_loop) refl
    ]
    drive_loop-ends (suc fuel) completed feedback w h =
        elim (Bool-cases (ltb (length completed) p.cap)) [
          | inr e ↦ rw (e, drive_loop) refl
          | inl e ↦
              rw (e, drive_loop)
                (ends-bind
                  (run_iteration r group_id p.node base (feedback_substitution p.feedback feedback)
                    (length completed) w.dirs)
                  _
                  (run_iteration-ends p.node base (feedback_substitution p.feedback feedback)
                    (length completed) w.dirs)
                  λ ran _.
                    ends-bind (iteration_verdict r group_id p base ran.0 ran.1) _
                      (iteration_verdict-ends ran.0 ran.1)
                      (elim [
                        | some status ↦ λ _. refl
                        | none ↦ λ _.
                            ends-bind (next_feedback p.feedback p.node ran.1 ran.0.run_id) _
                              (next_feedback-ends ran.1 ran.0.run_id)
                              λ f _.
                                drive_loop-ends fuel
                                  (completed ++ entry (length completed) ran.0 ∷ []) f _
                                  (omega (
                                    arith,
                                    length-append completed (entry (length completed) ran.0 ∷ []),
                                  ))
                      ]))
        ]

loop_judges : (spec : ControllerSpec) (o : Option Output) → ends (judge_done spec o) ≡ true
unfolding judge_done holds
loop_judges spec o = ground arith

adversarial_judges :
    (spec : AdversarialSpec) (o : Option Output) → ends (judge_verification spec o) ≡ true
unfolding judge_verification holds
adversarial_judges spec o = ground arith

ends_apart : (m : Step) → ends m ≡ true → m ≢ raised out_of_fuel
ends_apart m h e = cc (sym h ∙ ap ends e)

-- Both loops end, where the runner does not raise the model's own error: neither uses up its fuel,
-- so each runs at most as many rounds as its cap.
pub run_group-ends :
    (r : Runner) (group_id : String) (loop : ControllerSpec) (verification : AdversarialSpec)
    (base : Fields) (w : World)
    → IsProper r
    → (run_group r group_id (loop_policy loop) base w ≢ raised out_of_fuel)
      × (run_group r group_id (adversarial_policy verification) base w ≢ raised out_of_fuel)
unfolding run_group drive
run_group-ends r group_id loop verification base w proper = (
  ends_apart _ (
      drive_loop-ends r group_id proper (loop_policy loop) base (loop_judges loop)
        loop.max_iterations [] none w (omega arith)),
  ends_apart _ (
      drive_loop-ends r group_id proper (adversarial_policy verification) base
        (adversarial_judges verification) verification.max_rounds [] none w (omega arith)),
)
