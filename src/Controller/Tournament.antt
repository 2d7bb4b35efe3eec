-- ===== src/Controller/Tournament.antt =====
-- controller.py, from line 792: the tournament.
pub mod Resumed
pub mod Named
pub mod Complete
use cli_agentic_workflow.Prelude.{
  ℕ, zero, suc, String, List, [], ◌∷◌, ◌++◌, Option, none, some, Bool, true, false, not, Dict, get,
  put, map, Result, ok, raised, raise_if, ◌>>=◌, ◌>>◌, length, ltb, leb, if◌then◌else◌,
}
use cli_agentic_workflow.Value.{Value, Fields, field_at}
use cli_agentic_workflow.State.{StateStore, run_status}
use cli_agentic_workflow.Evaluate.{Output}
use cli_agentic_workflow.Executor.Outcome.{RunResult, run_succeeded}
use cli_agentic_workflow.Executor.Resume.{is_resumable}
use cli_agentic_workflow.Controller.Materialize.{
  ControllerError, FeedbackSpec, Substitution, no_run_group, already_finished, out_of_fuel,
  feedback_substitution,
}
use cli_agentic_workflow.Controller.Group.{
  GroupStatus, IterationResult, GroupResult, GroupEntry, GroupState, World, Runner, open_state,
  evaluate_node_output, next_feedback, record_membership, non_null,
}
use cli_agentic_workflow.Controller.Drive.{Step, entry, run_iteration, split_last}

pub record PromoteSpec : Type 0 where
  pub to_node : String
  pub to_field : String

pub record TournamentSpec : Type 0 where
  pub rounds : ℕ
  pub compare_node : String
  pub winner_field : String
  pub promote : Option PromoteSpec
  pub feedback : Option FeedbackSpec

-- `_round_substitutions`
unfoldable pub round_substitutions :
    TournamentSpec → Option String → Option Value → List Substitution
round_substitutions spec winner feedback = elim spec.promote [
  | none ↦ feedback_substitution spec.feedback feedback
  | some p ↦ elim winner [
    | none ↦ feedback_substitution spec.feedback feedback
    | some name ↦
        record { to_node = p.to_node; to_field = p.to_field; value = Value.str name }
        ∷ feedback_substitution spec.feedback feedback
  ]
]

-- The last of the winners that is one.
abbrev pub final_winner : List (Option String) → Option String
final_winner [] = none
final_winner (x ∷ winners) = elim (final_winner winners) [ some y ↦ some y | none ↦ x ]

-- `{it.run_id: {"promoted": winners[position]}}`
abbrev pub promotions : List IterationResult → List (Option String) → Dict (Option String)
promotions [] winners = []
promotions (it ∷ iterations) [] = []
promotions (it ∷ iterations) (x ∷ winners) = elim (get it.run_id (promotions iterations winners)) [
  | none ↦ put it.run_id x (promotions iterations winners)
  | some y ↦ promotions iterations winners
]

-- `_persist_tournament_state`
unfoldable pub persist_tournament_state :
    List IterationResult → List (Option String) → GroupStatus → World → World
persist_tournament_state iterations winners status w = record w {
  group = some (record {
    status = status;
    iterations =
        map
          (λ it. record {
            iteration = it;
            promoted = get it.run_id (promotions iterations winners);
          })
          iterations;
    winner = some (final_winner winners);
  });
}

-- `winners[-1] if winners else None`
abbrev pub last_of : List (Option String) → Option String
last_of winners = elim (split_last winners) [ none ↦ none | some (before, x) ↦ x ]

abbrev pub set_last : Option String → List (Option String) → List (Option String)
set_last x winners = elim (split_last winners) [
  | none ↦ winners
  | some (before, y) ↦ before ++ x ∷ []
]

abbrev pub tournament_result : GroupStatus → List IterationResult → Option String → GroupResult
tournament_result status iterations winner = record {
  status = status;
  iterations = iterations;
  winner = winner;
}

-- A failed round: the result has no winner; in group.json the round's own is none.
abbrev pub fail_round : List IterationResult → List (Option String) → World → Step
fail_round iterations winners w = ok (
  tournament_result GroupStatus.failed iterations none,
  persist_tournament_state iterations winners GroupStatus.failed w,
)

abbrev pub is_complete : GroupStatus → Bool
is_complete GroupStatus.complete = true
is_complete _ = false

-- `it.get("promoted")`
abbrev pub promoted_of : GroupEntry → Option String
promoted_of e = elim e.promoted [ none ↦ none | some x ↦ x ]

module _ (r : Runner) (group_id : String) (to_text : Value → String) (spec : TournamentSpec)
    (base : Fields) where
  -- `_round_winner`, with `to_text` for Python's `str`.
  unfoldable pub winner_in : Option Output → Option String
  winner_in none = none
  winner_in (some o) = elim o.structured_output [
    | some (Value.dict d) ↦ elim (non_null (field_at spec.winner_field d)) [
      | none ↦ none
      | some v ↦ some (to_text v)
    ]
    | _ ↦ none
  ]

  unfoldable pub round_winner : String → Dict StateStore → Result ControllerError (Option String)
  unfolding evaluate_node_output winner_in
  round_winner run_id dirs =
      evaluate_node_output dirs run_id spec.compare_node >>= λ o. ok (winner_in o)

  abbrev pub Next : Type 0
  Next = List IterationResult → List (Option String) → Option String → Option Value → World → Step

  -- A round with a winner: it is promoted, and the loop goes on.
  abbrev pub on_winner :
      Next → List IterationResult → List (Option String) → String → World → Option String → Step
  on_winner next completed winners run_id w none = fail_round completed (winners ++ none ∷ []) w
  on_winner next completed winners run_id w (some name) =
      next_feedback spec.feedback spec.compare_node w.dirs run_id >>= λ feedback.
      let winners' = winners ++ some name ∷ [] in
      let status =
        if leb spec.rounds (length completed) then GroupStatus.complete else GroupStatus.running in
      next completed winners' (some name) feedback
        (persist_tournament_state completed winners' status w)

  abbrev pub on_round :
      Next → List IterationResult → List (Option String) → RunResult → World → Bool → Step
  on_round next completed winners result w true =
      round_winner result.run_id w.dirs >>= on_winner next completed winners result.run_id w
  on_round next completed winners result w false = fail_round completed (winners ++ none ∷ []) w

  unfoldable pub tournament_round : Next → Next
  tournament_round next completed winners last_winner feedback w =
      run_iteration r group_id spec.compare_node base
        (round_substitutions spec last_winner feedback) (length completed) w.dirs
      >>= λ ran.
          on_round next (completed ++ entry (length completed) ran.0 ∷ []) winners ran.0
            (record w { dirs = ran.1 }) (run_succeeded ran.0)

  -- `while len(completed) < spec.rounds`
  unfoldable pub tournament_loop : ℕ → Next
  tournament_loop zero completed winners last_winner feedback w =
      elim (ltb (length completed) spec.rounds) [
        | false ↦ ok (tournament_result GroupStatus.complete completed last_winner, w)
        | true ↦ raised out_of_fuel
      ]
  tournament_loop (suc fuel) completed winners last_winner feedback w =
      elim (ltb (length completed) spec.rounds) [
        | false ↦ ok (tournament_result GroupStatus.complete completed last_winner, w)
        | true ↦ tournament_round (tournament_loop fuel) completed winners last_winner feedback w
      ]

  -- `_drive_tournament`
  unfoldable pub drive_tournament :
      List IterationResult → List (Option String) → Option Value → World → Step
  unfolding tournament_loop
  drive_tournament completed winners feedback w =
      tournament_loop spec.rounds completed winners (last_of winners) feedback w

  unfoldable pub run_tournament : World → Step
  unfolding drive_tournament
  run_tournament = drive_tournament [] [] none

  -- On after the recorded rounds: feedback comes from a last round that succeeded.
  unfoldable pub continue_tournament :
      List IterationResult → IterationResult → List (Option String) → World → Step
  unfolding drive_tournament
  continue_tournament before last winners w =
      (if last.succeeded
        then next_feedback spec.feedback spec.compare_node w.dirs last.run_id
        else ok none)
      >>= λ feedback. drive_tournament (before ++ last ∷ []) winners feedback w

  abbrev pub on_resumed_winner :
      List IterationResult → IterationResult → List (Option String) → World → Option String → Step
  on_resumed_winner before last winners w none =
      fail_round (before ++ last ∷ []) (set_last none winners) w
  on_resumed_winner before last winners w (some name) =
      continue_tournament before last (set_last (some name) winners) w

  unfoldable pub resume_last_round :
      List IterationResult → IterationResult → List (Option String) → World → Step
  unfolding round_winner
  resume_last_round before last winners w = r.resume last.run_id w.dirs >>= λ ran.
      record_membership group_id ran.0.run_id last.iteration_index ran.1 >>= λ dirs'.
      (if run_succeeded ran.0 then round_winner ran.0.run_id dirs' else ok none)
      >>= on_resumed_winner before (entry last.iteration_index ran.0) winners
          (record w { dirs = dirs' })

  unfoldable pub resume_round :
      Option (List IterationResult × IterationResult) → List (Option String) → World → Step
  unfolding drive_tournament
  resume_round none winners w = drive_tournament [] winners none w
  resume_round (some (before, last)) winners w = open_state last.run_id w.dirs >>= λ db.
      if is_resumable (run_status last.run_id db)
      then resume_last_round before last winners w
      else continue_tournament before last winners w

  unfoldable pub resume_tournament : World → Step
  unfolding resume_round
  resume_tournament w = elim w.group [
    | none ↦ raised no_run_group
    | some g ↦
        raise_if (is_complete g.status) already_finished
        >> resume_round (split_last (map (λ e. e.iteration) g.iterations))
            (map promoted_of g.iterations) w
  ]
