-- ===== src/Executor/Resume/Decisions.antt =====
-- executor.py: which resumes are let through, and what a resumed Run runs again.
use cli_agentic_workflow.Prelude.{
  ◌⊎◌, String, List, [], ◌∷◌, ◌++◌, Option, none, some, Bool, true, false, ◌||◌, ◌==◌, has, get,
  put, get-put, ◌≡◌, ◌≢◌, refl, ok, arith, eq_iff, Dict, Bool-cases, Option-cases, inl, inr, ◌∙◌,
}
use cli_agentic_workflow.Status.{RunStatus, NodeStatus, is_succeeded, is_awaiting}
use cli_agentic_workflow.State.{StateStore, run_status, node_statuses}
use cli_agentic_workflow.Model.Node.{Workflow}
use cli_agentic_workflow.Executor.Outcome.{is_nonempty}
use cli_agentic_workflow.Executor.Scheduler.{Context, Scheduler, is_open, init}
use cli_agentic_workflow.Executor.Resume.{
  Resumed, is_resumable, distinct, distinct_from, awaits, check_decisions, ids_where,
  mark_succeeded, decide, decline, seed, resume_run,
}

distinct_from-has :
    (x : String) (seen xs : List String)
    → has x seen ≡ false
    → has x xs ≡ true
    → has x (distinct_from seen xs) ≡ true
distinct_from-has x seen [] h k = k
distinct_from-has x seen (y ∷ xs) h k = elim (Bool-cases (has y seen)) [
  | inl e ↦ rw e (ground (arith, eq_iff x y, distinct_from-has x seen xs))
  | inr e ↦ rw e (ground (arith, eq_iff x y, eq_iff y x, distinct_from-has x (y ∷ seen) xs))
]

has-append : (x : String) (xs ys : List String) → has x (xs ++ ys) ≡ (has x xs || has x ys)
has-append x [] ys = refl
has-append x (y ∷ xs) ys = ground (arith, has-append x xs ys)

abbrev is_declined : Resumed → Bool
is_declined (Resumed.declined db events r) = true
is_declined (Resumed.driven c s) = false

awaiting_only : (t : NodeStatus) → is_awaiting t ≡ true → t ≡ NodeStatus.awaiting
awaiting_only t h = ground arith

awaits-get :
    (statuses : Dict NodeStatus) (id : String)
    → awaits statuses id ≡ true
    → get id statuses ≡ some NodeStatus.awaiting
awaits-get statuses id h = elim (Option-cases (get id statuses)) [
  | inl e ↦ absurd (ground arith)
  | inr (t, e) ↦ ground (arith, awaiting_only t)
]

checked_awaits :
    (statuses : Dict NodeStatus) (xs : List String) (id : String)
    → check_decisions statuses xs ≡ ok tt
    → has id xs ≡ true
    → get id statuses ≡ some NodeStatus.awaiting
unfolding check_decisions
checked_awaits statuses [] id h k = absurd (ground arith)
checked_awaits statuses (x ∷ xs) id h k =
    ground (arith, eq_iff id x, eq_iff x id, awaits-get statuses id, checked_awaits statuses xs id)

is_nonempty-distinct : (xs : List String) → is_nonempty (distinct xs) ≡ is_nonempty xs
is_nonempty-distinct [] = refl
is_nonempty-distinct (x ∷ xs) = refl

decide-checked :
    (run_id now : String) (w : Workflow) (approvals rejections : List String) (db : StateStore)
    (outcome : Resumed)
    → decide run_id now w approvals rejections db ≡ ok outcome
    → (check_decisions (node_statuses run_id db) (approvals ++ rejections) ≡ ok tt)
      × (is_declined outcome ≡ is_nonempty rejections)
unfolding decide decline seed
decide-checked run_id now w approvals [] db outcome h = (ground arith, ground arith)
decide-checked run_id now w approvals (x ∷ rejections) db outcome h = (ground arith, ground arith)

resumable_status :
    (o : Option RunStatus)
    → is_resumable o ≡ true
    → (t : RunStatus) × ((o ≡ some t) × ((t ≢ RunStatus.succeeded) × (t ≢ RunStatus.rejected)))
unfolding is_resumable
resumable_status none h = absurd (ground arith)
resumable_status (some t) h = (t, (refl, (λ e. absurd (ground arith), λ e. absurd (ground arith))))

-- What a resume that goes ahead has behind it.
pub record IsAdmitted (run_id : String) (checksum : Workflow → String) (stored : String)
    (w : Workflow) (approvals rejections : List String) (db : StateStore) (outcome : Resumed)
    : Type 0 where
  pub untampered : checksum w ≡ stored
  pub status : RunStatus
  pub recorded : run_status run_id db ≡ some status
  pub not_succeeded : status ≢ RunStatus.succeeded
  pub not_rejected : status ≢ RunStatus.rejected
  pub awaiting :
      (id : String)
      → (has id approvals || has id rejections) ≡ true
      → get id (node_statuses run_id db) ≡ some NodeStatus.awaiting
  pub declined : is_declined outcome ≡ is_nonempty rejections

-- A resume goes ahead only where the checksum of the workflow that the snapshot holds is the one that
-- stands beside it there, for a Run that is recorded and has neither succeeded nor been rejected, and
-- with decisions that name awaiting gates only; it ends the Run where any gate is rejected, and drives
-- it on otherwise.
pub resume_run-IsAdmitted :
    (run_id now : String) (checksum : Workflow → String) (stored : String) (has_cause : Bool)
    (w : Workflow) (approvals rejections : List String) (db : StateStore) (outcome : Resumed)
    → resume_run run_id now checksum stored has_cause w approvals rejections db ≡ ok outcome
    → IsAdmitted run_id checksum stored w approvals rejections db outcome
unfolding resume_run
resume_run-IsAdmitted run_id now checksum stored has_cause w approvals rejections db outcome h =
    let goes : decide run_id now w (distinct approvals) (distinct rejections) db ≡ ok outcome =
      ground arith in
    let (checked, d) =
      decide-checked run_id now w (distinct approvals) (distinct rejections) db outcome goes in
    let (t, (e, (u, v))) = resumable_status (run_status run_id db) (ground arith) in
    record {
      untampered = ground (arith, eq_iff (checksum w) stored);
      status = t;
      recorded = e;
      not_succeeded = u;
      not_rejected = v;
      awaiting = λ id i.
          checked_awaits (node_statuses run_id db) (distinct approvals ++ distinct rejections) id
            checked
            (ground (
              arith,
              has-append id (distinct approvals) (distinct rejections),
              distinct_from-has id [] approvals,
              distinct_from-has id [] rejections,
            ));
      declined = d ∙ is_nonempty-distinct rejections;
    }

ids_where-has :
    (statuses : Dict NodeStatus) (id : String)
    → get id statuses ≡ some NodeStatus.succeeded
    → has id (ids_where is_succeeded statuses) ≡ true
ids_where-has [] id h = absurd (ground arith)
ids_where-has ((x, t) ∷ statuses) id h = elim (Bool-cases (is_succeeded t)) [
  | inl e ↦ rw e (ground (arith, eq_iff x id, eq_iff id x, ids_where-has statuses id))
  | inr e ↦ rw e (ground (arith, ids_where-has statuses id))
]

module _ (run_id now : String) where
  mark_kept :
      (xs : List String) (statuses : Dict NodeStatus) (id : String)
      → get id statuses ≡ some NodeStatus.succeeded
      → get id (mark_succeeded run_id now xs statuses) ≡ some NodeStatus.succeeded
  mark_kept [] statuses id h = h
  mark_kept (x ∷ xs) statuses id h =
      mark_kept xs (put x NodeStatus.succeeded statuses) id
        (ground (arith, get-put x id NodeStatus.succeeded statuses))

  mark_marked :
      (xs : List String) (statuses : Dict NodeStatus) (id : String)
      → has id xs ≡ true
      → get id (mark_succeeded run_id now xs statuses) ≡ some NodeStatus.succeeded
  mark_marked [] statuses id h = absurd (ground arith)
  mark_marked (x ∷ xs) statuses id h = elim (Bool-cases (id == x)) [
    | inl e ↦
        mark_kept xs (put x NodeStatus.succeeded statuses) id
          (ground (arith, eq_iff id x, eq_iff x id, get-put x id NodeStatus.succeeded statuses))
    | inr e ↦ mark_marked xs (put x NodeStatus.succeeded statuses) id (ground arith)
  ]

driven-satisfied :
    (run_id now : String) (w : Workflow) (approvals rejections : List String) (db : StateStore)
    (c : Context) (s : Scheduler)
    → decide run_id now w approvals rejections db ≡ ok (Resumed.driven c s)
    → s.satisfied
      ≡ ids_where is_succeeded (mark_succeeded run_id now approvals (node_statuses run_id db))
unfolding decide decline seed init
driven-satisfied run_id now w approvals [] db c s h = ground arith
driven-satisfied run_id now w approvals (x ∷ rejections) db c s h = absurd (ground arith)

satisfied-closed : (s : Scheduler) (id : String) → has id s.satisfied ≡ true → is_open s id ≡ false
unfolding is_open
satisfied-closed s id h = ground arith

-- A Node that State has as succeeded, or a gate that the resume approves, is satisfied in the
-- scheduler that a resume drives: it is not open, so it is not run again.
pub resumed-satisfied :
    (run_id now : String) (checksum : Workflow → String) (stored : String) (has_cause : Bool)
    (w : Workflow) (approvals rejections : List String) (db : StateStore) (c : Context)
    (s : Scheduler) (id : String)
    → resume_run run_id now checksum stored has_cause w approvals rejections db
      ≡ ok (Resumed.driven c s)
    → (get id (node_statuses run_id db) ≡ some NodeStatus.succeeded) ⊎ (has id approvals ≡ true)
    → (has id s.satisfied ≡ true) × (is_open s id ≡ false)
unfolding resume_run
resumed-satisfied run_id now checksum stored has_cause w approvals rejections db c s id h k =
    let goes : decide run_id now w (distinct approvals) (distinct rejections) db
        ≡ ok (Resumed.driven c s) =
      ground arith in
    let e = driven-satisfied run_id now w (distinct approvals) (distinct rejections) db c s goes in
    let statuses = node_statuses run_id db in
    let i : get id (mark_succeeded run_id now (distinct approvals) statuses)
        ≡ some NodeStatus.succeeded =
      elim k [
        | inl f ↦ mark_kept run_id now (distinct approvals) statuses id f
        | inr f ↦
            mark_marked run_id now (distinct approvals) statuses id
              (distinct_from-has id [] approvals refl f)
      ] in
    let j : has id s.satisfied ≡ true =
      ground
        (arith, e, ids_where-has (mark_succeeded run_id now (distinct approvals) statuses) id i) in
    (j, satisfied-closed s id j)
