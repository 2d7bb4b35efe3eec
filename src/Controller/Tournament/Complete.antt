-- ===== src/Controller/Tournament/Complete.antt =====
-- controller.py: what a tournament that runs to its end reports, and what group.json holds then.
use cli_agentic_workflow.Prelude.{
  ℕ, zero, suc, ◌≤◌, ◌<◌, String, List, [], ◌∷◌, ◌++◌, Option, none, some, true, false, length,
  length-append, ltb, leb, ◌≡◌, refl, subst, ok, arith, Bool-cases, ◌⊎◌, inl, inr, ap,
  if◌then◌else◌, >>=-eq-ok,
}
use cli_agentic_workflow.Value.{Value, Fields}
use cli_agentic_workflow.Executor.Outcome.{run_succeeded, status}
use cli_agentic_workflow.Controller.Group.{
  GroupStatus, IterationResult, GroupResult, GroupState, World, Runner, next_feedback,
  evaluate_node_output,
}
use cli_agentic_workflow.Controller.Drive.{run_iteration}
use cli_agentic_workflow.Controller.Drive.Outcome.{Leads, Leads-bind}
use cli_agentic_workflow.Controller.Tournament.{
  TournamentSpec, tournament_loop, tournament_round, drive_tournament, run_tournament,
  tournament_result, round_winner, round_substitutions, final_winner, persist_tournament_state,
}
use cli_agentic_workflow.Evaluate.{Output}
use cli_agentic_workflow.Controller.Tournament.Named.{
  Names, HasOutput, winner_in-Names, winner_in-none,
}

-- The group's record has a status and a final winner.
abbrev pub Recorded : World → GroupStatus → Option String → Type 0
Recorded w status winner =
    (g : GroupState) × ((w.group ≡ some g) × ((g.status ≡ status) × (g.winner ≡ some winner)))

abbrev pub HasStatus : World → GroupStatus → Type 0
HasStatus w status = (g : GroupState) × ((w.group ≡ some g) × (g.status ≡ status))

-- The last iteration of a list names a winner, with this text.
abbrev pub LastNames :
    (Value → String) → TournamentSpec → World → List IterationResult → String → Type 0
LastNames to_text spec w iterations name =
    (before : List IterationResult) × (last : IterationResult) × (output : Option Output)
    × (v : Value) × (iterations ≡ before ++ last ∷ [])
    × (last.succeeded ≡ true)
    × HasOutput spec w last output
    × Names spec output v
    × (name ≡ to_text v)

-- Complete after every round, with the winner that the last one names; or failed at a round whose Run
-- failed, or that names none, and then with no winner in the result.
pub data IsTournamentEnd (to_text : Value → String) (spec : TournamentSpec) (x : GroupResult)
    (w : World) : Type 0 where
  complete :
      (name : String)
      → x.status ≡ GroupStatus.complete
      → length x.iterations ≡ spec.rounds
      → LastNames to_text spec w x.iterations name
      → x.winner ≡ some name
      → Recorded w GroupStatus.complete (some name)
      → IsTournamentEnd to_text spec x w
  failed :
      (before : List IterationResult) (last : IterationResult)
      → x.status ≡ GroupStatus.failed
      → x.iterations ≡ before ++ last ∷ []
      → length x.iterations ≤ spec.rounds
      → (last.succeeded ≡ false)
        ⊎ ((last.succeeded ≡ true)
            × ((output : Option Output) × (HasOutput spec w last output
                  × ((v : Value) → ¬ Names spec output v))))
      → x.winner ≡ none
      → HasStatus w GroupStatus.failed
      → IsTournamentEnd to_text spec x w

final_winner-append :
    (winners : List (Option String)) (name : String)
    → final_winner (winners ++ some name ∷ []) ≡ some name
final_winner-append [] name = refl
final_winner-append (x ∷ winners) name = rw (final_winner-append winners name) refl

module _ (r : Runner) (group_id : String) (to_text : Value → String) (spec : TournamentSpec)
    (base : Fields) where
  abbrev Ended : GroupResult × World → Type 0
  Ended x = IsTournamentEnd to_text spec x.0 x.1

  -- Between rounds: none was run yet, or the last one's winner is promoted, and recorded when it
  -- was the last.
  abbrev Between : List IterationResult → Option String → World → Type 0
  Between completed winner w =
      (length completed < spec.rounds)
      ⊎ ((name : String) × ((winner ≡ some name)
            × ((length completed ≡ spec.rounds)
                × (LastNames to_text spec w completed name
                    × Recorded w GroupStatus.complete (some name)))))

  stopped :
      (completed : List IterationResult) (winner : Option String) (w : World)
      → Between completed winner w
      → ltb (length completed) spec.rounds ≡ false
      → IsTournamentEnd to_text spec (tournament_result GroupStatus.complete completed winner) w
  stopped completed winner w (inl h) e = absurd (ground arith)
  stopped completed winner w (inr (name, (f, (n, (l, g))))) e =
      IsTournamentEnd.complete name refl n l f g

  promoted-Between :
      (completed : List IterationResult) (winners : List (Option String)) (name : String)
      (w : World)
      → length completed ≤ spec.rounds
      → LastNames to_text spec w completed name
      → Between completed (some name) (
          persist_tournament_state completed
            (winners ++ some name ∷ [])
            (if leb spec.rounds (length completed)
              then GroupStatus.complete
              else GroupStatus.running)
            w)
  unfolding persist_tournament_state
  promoted-Between completed winners name w h l =
      elim (Bool-cases (leb spec.rounds (length completed))) [
        | inl e ↦ inr (
          name,
          (
            refl,
            (
              ground arith,
              (l, (_, (refl, (rw e refl, ap some (final_winner-append winners name))))),
            ),
          ),
        )
        | inr e ↦ inl (ground arith)
      ]

  loop-Ended :
      (fuel : ℕ) (completed : List IterationResult) (winners : List (Option String))
      (winner : Option String) (feedback : Option Value) (w : World)
      → length completed ≤ spec.rounds
      → Between completed winner w
      → Leads Ended
          (tournament_loop r group_id to_text spec base fuel completed winners winner feedback w)
  unfolding tournament_loop tournament_round persist_tournament_state round_winner
  loop-Ended zero completed winners winner feedback w h b =
      elim (Bool-cases (ltb (length completed) spec.rounds)) [
        | inl e ↦ rw (e, tournament_loop) tt
        | inr e ↦ rw (e, tournament_loop) (stopped completed winner w b e)
      ]
  loop-Ended (suc fuel) completed winners winner feedback w h b =
      elim (Bool-cases (ltb (length completed) spec.rounds)) [
        | inr e ↦ rw (e, tournament_loop) (stopped completed winner w b e)
        | inl e ↦
            rw (e, tournament_loop)
              (Leads-bind Ended
                (run_iteration r group_id spec.compare_node base
                  (round_substitutions spec winner feedback) (length completed) w.dirs)
                _
                λ ran _.
                  let it : IterationResult = record {
                    iteration_index = length completed;
                    run_id = ran.0.run_id;
                    succeeded = true;
                  } in
                  let more : (at : IterationResult) → length (completed ++ at ∷ []) ≤ spec.rounds =
                    λ at. ground (arith, length-append completed (at ∷ [])) in
                  elim (Bool-cases (run_succeeded ran.0)) [
                    | inr f ↦ rw f (
                        IsTournamentEnd.failed completed _ refl refl (more _) (inl refl) refl
                          (_, (refl, refl)))
                    | inl f ↦ rw f (
                        Leads-bind Ended
                          (round_winner r group_id to_text spec base ran.0.run_id ran.1) _
                          (elim [
                            | none ↦ λ e₁.
                                let (output, g, k) =
                                  >>=-eq-ok
                                    (evaluate_node_output ran.1 ran.0.run_id spec.compare_node) _
                                    e₁ in
                                IsTournamentEnd.failed completed it refl refl (more it)
                                  (inr (
                                    refl,
                                    (
                                      output,
                                      (
                                        g,
                                        winner_in-none r group_id to_text spec base output
                                            (ground arith),
                                      ),
                                    ),
                                  ))
                                  refl (_, (refl, refl))
                            | some name ↦ λ e₁.
                                let (output, g, k) =
                                  >>=-eq-ok
                                    (evaluate_node_output ran.1 ran.0.run_id spec.compare_node) _
                                    e₁ in
                                let (u, named, t) =
                                  winner_in-Names r group_id to_text spec base output name
                                    (ground arith) in
                                Leads-bind Ended
                                  (next_feedback spec.feedback spec.compare_node ran.1 ran.0.run_id)
                                  _
                                  λ v _.
                                    loop-Ended fuel (completed ++ it ∷ [])
                                      (winners ++ some name ∷ []) (some name) v _ (more it)
                                      (promoted-Between (completed ++ it ∷ []) winners name
                                        (record w { dirs = ran.1 }) (more it)
                                        (completed, it, output, u, refl, refl, g, named, t))
                          ]))
                  ])
      ]

-- A tournament of at least one round that runs to its end is complete, after all of its rounds, with
-- the winner that the output of the last one names, which group.json records beside that status; or it
-- failed, at a round whose Run failed or whose output names no winner: then it returns no winner, and
-- the status in group.json is failed. (What group.json then has as a winner is not stated.)
pub run_tournament-IsTournamentEnd :
    (r : Runner) (group_id : String) (to_text : Value → String) (spec : TournamentSpec)
    (base : Fields) (w w' : World) (result : GroupResult)
    → 1 ≤ spec.rounds
    → run_tournament r group_id to_text spec base w ≡ ok (result, w')
    → IsTournamentEnd to_text spec result w'
unfolding run_tournament drive_tournament
run_tournament-IsTournamentEnd r group_id to_text spec base w w' result h e =
    subst (Leads (Ended r group_id to_text spec base)) e (
      loop-Ended r group_id to_text spec base spec.rounds [] [] none none w (omega arith)
        (inl (omega arith)))
