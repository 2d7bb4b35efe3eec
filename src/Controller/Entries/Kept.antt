-- ===== src/Controller/Entries/Kept.antt =====
-- controller.py: what a resume of a loop or a verification keeps of the recorded iterations.
use cli_agentic_workflow.Prelude.{
  subst, List, sym, suc, ltb, arith, ◌≡◌, inr, [], Bool-cases, false, none, zero, Dict, ◌++◌, ◌∷◌,
  ok, refl, map, true, some, ◌∙◌, get, length, ℕ, Option, String, inl, append_nil, append_assoc,
}
use cli_agentic_workflow.Value.{Value, Fields}
use cli_agentic_workflow.State.{StateStore, run_status}
use cli_agentic_workflow.Controller.Drive.{
  Policy, entry, split_last, run_iteration, iteration_verdict, drive_round, drive_loop, drive,
  continue, resume_last, resume_from, resume_group,
}
use cli_agentic_workflow.Controller.Materialize.{feedback_substitution}
use cli_agentic_workflow.Controller.Group.{
  IterationResult, GroupResult, GroupState, World, Runner, next_feedback, record_membership,
  open_state,
}
use cli_agentic_workflow.Controller.Drive.Outcome.{Leads, Leads-bind, Leads-map}
use cli_agentic_workflow.Executor.Resume.{is_resumable}
use cli_agentic_workflow.Executor.Outcome.{status}

-- The iterations after a resume: the recorded ones, with the last as its Run was resumed, or as it was
-- when its Run is not one to be resumed; and new ones.
pub record IsKept (r : Runner) (dirs : Dict StateStore) (before : List IterationResult)
    (last : IterationResult) (iterations : List IterationResult) : Type 0 where
  pub last' : IterationResult
  pub more : List IterationResult
  pub extends : iterations ≡ (before ++ last' ∷ []) ++ more
  pub same_index : last'.iteration_index ≡ last.iteration_index
  pub untouched :
      (db : StateStore)
      → get last.run_id dirs ≡ some db
      → is_resumable (run_status last.run_id db) ≡ false
      → last' ≡ last

module _ (r : Runner) (group_id : String) (p : Policy) (base : Fields) where
  abbrev Extends : List IterationResult → GroupResult × World → Type 0
  Extends completed x = (more : List IterationResult) × (x.0.iterations ≡ completed ++ more)

  drive_loop-Extends :
      (fuel : ℕ) (completed : List IterationResult) (feedback : Option Value) (w : World)
      → Leads (Extends completed) (drive_loop r group_id p base fuel completed feedback w)
  unfolding drive_loop drive_round
  drive_loop-Extends zero completed feedback w = elim (Bool-cases (ltb (length completed) p.cap)) [
    | inl e ↦ rw (e, drive_loop) tt
    | inr e ↦ rw (e, drive_loop) ([], sym (append_nil completed))
  ]
  drive_loop-Extends (suc fuel) completed feedback w =
      elim (Bool-cases (ltb (length completed) p.cap)) [
        | inr e ↦ rw (e, drive_loop) ([], sym (append_nil completed))
        | inl e ↦
            rw (e, drive_loop)
              (Leads-bind (Extends completed)
                (run_iteration r group_id p.node base (feedback_substitution p.feedback feedback)
                  (length completed) w.dirs)
                _
                λ ran _.
                  let it = entry (length completed) ran.0 in
                  Leads-bind (Extends completed) (iteration_verdict r group_id p base ran.0 ran.1) _
                    (elim [
                      | some status ↦ λ _. (it ∷ [], refl)
                      | none ↦ λ _.
                          Leads-bind (Extends completed)
                            (next_feedback p.feedback p.node ran.1 ran.0.run_id) _
                            λ f _.
                              Leads-map (Extends (completed ++ it ∷ [])) (Extends completed)
                                (λ x e. (it ∷ e.0, e.1 ∙ append_assoc completed (it ∷ []) e.0)) _
                                (drive_loop-Extends fuel (completed ++ it ∷ []) f _)
                    ]))
      ]

  module _ (before : List IterationResult) (last : IterationResult) (dirs : Dict StateStore) where
    abbrev Kept : GroupResult × World → Type 0
    Kept x = IsKept r dirs before last x.0.iterations

    continue-Kept :
        (last' : IterationResult) (w : World)
        → last'.iteration_index ≡ last.iteration_index
        → ((db : StateStore)
            → get last.run_id dirs ≡ some db
            → is_resumable (run_status last.run_id db) ≡ false
            → last' ≡ last)
        → Leads Kept (continue r group_id p base before last' w)
    unfolding continue drive
    continue-Kept last' w i u =
        Leads-bind Kept (next_feedback p.feedback p.node w.dirs last'.run_id) _ λ f _.
          Leads-map (Extends (before ++ last' ∷ [])) Kept
            (λ x e. record {
              last' = last';
              more = e.0;
              extends = e.1;
              same_index = i;
              untouched = u;
            })
            _ (drive_loop-Extends p.cap (before ++ last' ∷ []) f w)

    resume_last-Kept :
        (w : World) (db : StateStore)
        → get last.run_id dirs ≡ some db
        → is_resumable (run_status last.run_id db) ≡ true
        → Leads Kept (resume_last r group_id p base before last w)
    unfolding resume_last
    resume_last-Kept w db o b = Leads-bind Kept (r.resume last.run_id w.dirs) _ λ ran _.
        let it = entry last.iteration_index ran.0 in
        Leads-bind Kept (record_membership group_id ran.0.run_id last.iteration_index ran.1) _
          λ dirs' _. Leads-bind Kept (iteration_verdict r group_id p base ran.0 dirs') _ (elim [
            | some status ↦ λ _. record {
              last' = it;
              more = [];
              extends = sym (append_nil (before ++ it ∷ []));
              same_index = refl;
              untouched = λ db' o' b'. absurd (ground arith);
            }
            | none ↦ λ _.
                continue-Kept it (record w { dirs = dirs' }) refl
                  (λ db' o' b'. absurd (ground arith))
          ])

-- A resume that runs to its end keeps every recorded iteration in its place and adds new ones behind
-- them. Only the last may change, with the result of its resumed Run, and it does not where its Run
-- has succeeded or was rejected.
pub resume_group-IsKept :
    (r : Runner) (group_id : String) (p : Policy) (base : Fields) (w w' : World) (g : GroupState)
    (before : List IterationResult) (last : IterationResult) (result : GroupResult)
    → w.group ≡ some g
    → split_last (map (λ e. e.iteration) g.iterations) ≡ some (before, last)
    → resume_group r group_id p base w ≡ ok (result, w')
    → IsKept r w.dirs before last result.iterations
unfolding resume_group resume_from
resume_group-IsKept r group_id p base w w' g before last result e s k =
    let goes : resume_from r group_id p base (some (before, last)) w ≡ ok (result, w') =
      ground arith in
    subst (Leads (Kept r group_id p base before last w.dirs)) goes (
      Leads-bind (Kept r group_id p base before last w.dirs) (open_state last.run_id w.dirs) _
        λ db o.
          let o' : get last.run_id w.dirs ≡ some db = ground arith in
          elim (Bool-cases (is_resumable (run_status last.run_id db))) [
            | inl b ↦ rw b (resume_last-Kept r group_id p base before last w.dirs w db o' b)
            | inr b ↦
                rw b
                  (continue-Kept r group_id p base before last w.dirs last w refl (λ db' q c. refl))
          ])
