-- ===== src/Controller/Tournament/Resumed.antt =====
-- controller.py: what a resume makes of a tournament whose rounds have all been recorded.
use cli_agentic_workflow.Prelude.{
  ℕ, zero, suc, ◌≤◌, String, List, [], ◌∷◌, ◌++◌, Option, none, some, Bool, true, false, Dict, get,
  map, length, length-append, ltb, ◌≡◌, ◌≢◌, refl, sym, ap, subst, Result, ok, arith, Bool-cases,
  Option-cases, inl, inr, if◌then◌else◌,
}
use cli_agentic_workflow.Value.{Value, Fields}
use cli_agentic_workflow.Status.{RunStatus}
use cli_agentic_workflow.State.{StateStore, run_status, node_output}
use cli_agentic_workflow.Executor.Outcome.{run_succeeded}
use cli_agentic_workflow.Executor.Resume.{is_resumable}
use cli_agentic_workflow.Controller.Materialize.{ControllerError, FeedbackSpec}
use cli_agentic_workflow.Controller.Group.{
  GroupStatus, IterationResult, GroupResult, GroupEntry, GroupState, World, Runner, open_state,
  evaluate_node_output, next_feedback, feedback_value, record_membership,
}
use cli_agentic_workflow.Controller.Drive.Outcome.{Leads, Leads-bind}
use cli_agentic_workflow.Controller.Drive.{entry, split_last}
use cli_agentic_workflow.Controller.Tournament.{
  TournamentSpec, tournament_loop, drive_tournament, continue_tournament, resume_last_round,
  resume_round, resume_tournament, tournament_result, last_of, set_last, promoted_of, is_complete,
  round_winner, persist_tournament_state,
}

split_last-none : (xs : List IterationResult) → split_last xs ≡ none → length xs ≡ 0
split_last-none [] e = refl
split_last-none (x ∷ xs) e = absurd (ground (arith, Option-cases (split_last xs)))

length-split_last :
    (xs before : List IterationResult) (last : IterationResult)
    → split_last xs ≡ some (before, last)
    → length (before ++ last ∷ []) ≡ length xs
length-split_last [] before last e = absurd (ground arith)
length-split_last (x ∷ xs) before last e = elim (Option-cases (split_last xs)) [
  | inl n ↦ ground (arith, split_last-none xs n)
  | inr (b, n) ↦ ground (arith, length-split_last xs b.0 b.1)
]

length-map {ℓ κ} :
    {A : Type ℓ} {B : Type κ} (f : A → B) (xs : List A) → length (map f xs) ≡ length xs
length-map f [] = refl
length-map f (x ∷ xs) = ap suc (length-map f xs)

abbrev is_complete_result : GroupResult → Bool
is_complete_result x = elim x.status [ GroupStatus.complete ↦ true | _ ↦ false ]

module _ (r : Runner) (group_id : String) (to_text : Value → String) (spec : TournamentSpec)
    (base : Fields) where
  loop_stops :
      (fuel : ℕ) (completed : List IterationResult) (winners : List (Option String))
      (last : Option String) (feedback : Option Value) (w : World)
      → ltb (length completed) spec.rounds ≡ false
      → tournament_loop r group_id to_text spec base fuel completed winners last feedback w
        ≡ ok (tournament_result GroupStatus.complete completed last, w)
  unfolding tournament_loop
  loop_stops zero completed winners last feedback w e = rw (e, tournament_loop) refl
  loop_stops (suc fuel) completed winners last feedback w e = rw (e, tournament_loop) refl

  -- With every round recorded, going on does nothing.
  continue_stops :
      (before : List IterationResult) (last : IterationResult) (winners : List (Option String))
      (w : World) (P : GroupResult × World → Type 0)
      → spec.rounds ≤ length (before ++ last ∷ [])
      → P (tournament_result GroupStatus.complete (before ++ last ∷ []) (last_of winners), w)
      → Leads P (continue_tournament r group_id to_text spec base before last winners w)
  unfolding continue_tournament drive_tournament
  continue_stops before last winners w P h k =
      Leads-bind P
        (if last.succeeded
          then next_feedback spec.feedback spec.compare_node w.dirs last.run_id
          else ok none)
        _
        λ f _.
          subst (Leads P)
            (sym (
              loop_stops spec.rounds (before ++ last ∷ []) winners (last_of winners) f w
                (ground arith)))
            k

  -- A world whose group.json is not that of a complete tournament.
  abbrev Incomplete : World → Type 0
  Incomplete w = (g : GroupState) × ((w.group ≡ some g) × (is_complete g.status ≡ false))

  abbrev Stale : GroupResult × World → Type 0
  Stale x = is_complete_result x.0 ≡ true → Incomplete x.1

  resume_last_round-Stale :
      (before : List IterationResult) (last : IterationResult) (winners : List (Option String))
      (w : World)
      → spec.rounds ≤ length (before ++ last ∷ [])
      → Incomplete w
      → Leads Stale (resume_last_round r group_id to_text spec base before last winners w)
  unfolding resume_last_round persist_tournament_state
  resume_last_round-Stale before last winners w h g =
      Leads-bind Stale (r.resume last.run_id w.dirs) _ λ ran _.
        Leads-bind Stale (record_membership group_id ran.0.run_id last.iteration_index ran.1) _
          λ dirs' _.
            let it = entry last.iteration_index ran.0 in
            Leads-bind Stale
              (if run_succeeded ran.0
                then round_winner r group_id to_text spec base ran.0.run_id dirs'
                else ok none)
              _
              (elim [
                | none ↦ λ _ c. absurd (ground arith)
                | some name ↦ λ _.
                    continue_stops before it (set_last (some name) winners)
                      (record w { dirs = dirs' }) Stale
                      (ground
                        (arith, length-append before (it ∷ []), length-append before (last ∷ [])))
                      (λ c. g)
              ])

  resume_round-Stale :
      (iterations : List IterationResult) (winners : List (Option String)) (w : World)
      → spec.rounds ≤ length iterations
      → Incomplete w
      → Leads Stale (resume_round r group_id to_text spec base (split_last iterations) winners w)
  unfolding resume_round drive_tournament
  resume_round-Stale iterations winners w h g = elim (Option-cases (split_last iterations)) [
    | inl e ↦
        rw (e, resume_round)
          (subst (Leads Stale)
            (sym (
              loop_stops spec.rounds [] winners (last_of winners) none w
                (ground (arith, split_last-none iterations e))))
            (λ c. g))
    | inr ((before, last), e) ↦
        let h' : spec.rounds ≤ length (before ++ last ∷ []) =
          omega (arith, length-split_last iterations before last e) in
        rw (e, resume_round)
          (Leads-bind Stale (open_state last.run_id w.dirs) _ λ db _.
            elim (Bool-cases (is_resumable (run_status last.run_id db))) [
              | inl b ↦ rw b (resume_last_round-Stale before last winners w h' g)
              | inr b ↦ rw b (continue_stops before last winners w Stale h' (λ c. g))
            ])
  ]

not_complete : (t : GroupStatus) → is_complete t ≡ false → t ≢ GroupStatus.complete
not_complete t h e = absurd (ground arith)

-- A resume of a tournament whose rounds have all been recorded, and that reports the tournament
-- complete, leaves a group.json that does not: its status is still that of the interruption.
pub resume_tournament-stale :
    (r : Runner) (group_id : String) (to_text : Value → String) (spec : TournamentSpec)
    (base : Fields) (w w' : World) (g : GroupState) (result : GroupResult)
    → w.group ≡ some g
    → spec.rounds ≤ length g.iterations
    → resume_tournament r group_id to_text spec base w ≡ ok (result, w')
    → result.status ≡ GroupStatus.complete
    → (g' : GroupState) × ((w'.group ≡ some g') × (g'.status ≢ GroupStatus.complete))
unfolding resume_tournament
resume_tournament-stale r group_id to_text spec base w w' g result e h k c =
    let fresh : is_complete g.status ≡ false = ground arith in
    let goes : resume_round r group_id to_text spec base
          (split_last (map (λ i. i.iteration) g.iterations)) (map promoted_of g.iterations) w
        ≡ ok (result, w') =
      ground arith in
    let (g', (f, i)) =
      subst (Leads (Stale r group_id to_text spec base)) goes
        (resume_round-Stale r group_id to_text spec base (map (λ i. i.iteration) g.iterations)
          (map promoted_of g.iterations) w
          (omega (arith, length-map (λ (i : GroupEntry). i.iteration) g.iterations))
          (g, (e, fresh)))
        (ground arith) in
    (g', (f, not_complete g'.status i))

next_feedback_ok :
    (f : Option FeedbackSpec) (node run_id : String) (dirs : Dict StateStore) (db : StateStore)
    → get run_id dirs ≡ some db
    → (v : Option Value) × (next_feedback f node dirs run_id ≡ ok v)
unfolding next_feedback evaluate_node_output
next_feedback_ok none node run_id dirs db e = (none, refl)
next_feedback_ok (some f) node run_id dirs db e =
    (feedback_value (node_output run_id node db) f.from_field, ground arith)

feedback_or_none :
    (b : Bool) (m : Result ControllerError (Option Value))
    → ((v : Option Value) × (m ≡ ok v))
    → (v : Option Value) × ((if b then m else ok none) ≡ ok v)
feedback_or_none true m h = h
feedback_or_none false m h = (none, refl)

continue_ok :
    (r : Runner) (group_id : String) (to_text : Value → String) (spec : TournamentSpec)
    (base : Fields) (before : List IterationResult) (last : IterationResult)
    (winners : List (Option String)) (w : World) (db : StateStore)
    → get last.run_id w.dirs ≡ some db
    → spec.rounds ≤ length (before ++ last ∷ [])
    → continue_tournament r group_id to_text spec base before last winners w
      ≡ ok (tournament_result GroupStatus.complete (before ++ last ∷ []) (last_of winners), w)
unfolding continue_tournament drive_tournament
continue_ok r group_id to_text spec base before last winners w db o h =
    let (f, e) =
      feedback_or_none last.succeeded
        (next_feedback spec.feedback spec.compare_node w.dirs last.run_id)
        (next_feedback_ok spec.feedback spec.compare_node last.run_id w.dirs db o) in
    rw (e, continue_tournament)
      (loop_stops r group_id to_text spec base spec.rounds (before ++ last ∷ []) winners
        (last_of winners) f w (ground arith))

-- A tournament that failed since its last round, whose Run succeeded, named no winner is reported
-- complete, with no winner, by the next resume; which writes nothing.
pub resume_tournament-winnerless :
    (r : Runner) (group_id : String) (to_text : Value → String) (spec : TournamentSpec)
    (base : Fields) (w : World) (g : GroupState) (before : List IterationResult)
    (last : IterationResult) (db : StateStore)
    → w.group ≡ some g
    → g.status ≡ GroupStatus.failed
    → split_last (map (λ i. i.iteration) g.iterations) ≡ some (before, last)
    → spec.rounds ≤ length g.iterations
    → last_of (map promoted_of g.iterations) ≡ none
    → get last.run_id w.dirs ≡ some db
    → run_status last.run_id db ≡ some RunStatus.succeeded
    → resume_tournament r group_id to_text spec base w
      ≡ ok (tournament_result GroupStatus.complete (before ++ last ∷ []) none, w)
unfolding resume_tournament resume_round is_resumable
resume_tournament-winnerless r group_id to_text spec base w g before last db e t f h n o b =
    ground (
      arith,
      length-split_last (map (λ i. i.iteration) g.iterations) before last f,
      length-map (λ (i : GroupEntry). i.iteration) g.iterations,
      continue_ok r group_id to_text spec base before last (map promoted_of g.iterations) w db,
    )
