-- ===== src/Controller/Tournament/Named.antt =====
-- controller.py: the winner that a round's output names.
use cli_agentic_workflow.Prelude.{
  ◌≡◌, ok, inl, String, ◌≢◌, Option, inr, some, arith, none, Option-cases, refl,
}
use cli_agentic_workflow.Value.{Value, Fields, field_at}
use cli_agentic_workflow.Evaluate.{Output}
use cli_agentic_workflow.Controller.Tournament.{TournamentSpec, winner_in}
use cli_agentic_workflow.Controller.Group.{
  IterationResult, World, Runner, evaluate_node_output, non_null,
}

-- The output names a winner: the value that the winner field of its JSON object has, no null.
abbrev pub Names : TournamentSpec → Option Output → Value → Type 0
Names spec output v =
    (o : Output) × (d : Fields) × (output ≡ some o)
    × (o.structured_output ≡ some (Value.dict d))
    × (field_at spec.winner_field d ≡ some v)
    × (v ≢ Value.null)

-- The output that an iteration's State holds of the node that compares.
abbrev pub HasOutput : TournamentSpec → World → IterationResult → Option Output → Type 0
HasOutput spec w it output = evaluate_node_output w.dirs it.run_id spec.compare_node ≡ ok output

non_null-some :
    (x : Option Value) (v : Value) → non_null x ≡ some v → (x ≡ some v) × (v ≢ Value.null)
non_null-some none v e = absurd (ground arith)
non_null-some (some Value.null) v e = absurd (ground arith)
non_null-some (some _) v e = (e, λ h. absurd (ground arith))

non_null-kept : (x : Option Value) (v : Value) → x ≡ some v → v ≢ Value.null → non_null x ≡ some v
non_null-kept none v e h = e
non_null-kept (some Value.null) v e h = absurd (h (ground arith))
non_null-kept (some _) v e h = e

module _ (r : Runner) (group_id : String) (to_text : Value → String) (spec : TournamentSpec)
    (base : Fields) where
  winner_at :
      (o : Output) (value : Value) (name : String)
      → o.structured_output ≡ some value
      → winner_in r group_id to_text spec base (some o) ≡ some name
      → (v : Value) × Names spec (some o) v × (name ≡ to_text v)
  unfolding winner_in
  winner_at o (Value.dict d) name f e =
      elim (Option-cases (non_null (field_at spec.winner_field d))) [
        | inl g ↦ absurd (ground arith)
        | inr (v, g) ↦
            let (at_field, not_null) = non_null-some (field_at spec.winner_field d) v g in
            (v, (o, d, refl, f, at_field, not_null), ground arith)
      ]
  winner_at o _ name f e = absurd (ground arith)

  pub winner_in-Names :
      (output : Option Output) (name : String)
      → winner_in r group_id to_text spec base output ≡ some name
      → (v : Value) × Names spec output v × (name ≡ to_text v)
  unfolding winner_in
  winner_in-Names none name e = absurd (ground arith)
  winner_in-Names (some o) name e = elim (Option-cases o.structured_output) [
    | inl f ↦ absurd (ground arith)
    | inr (value, f) ↦ winner_at o value name f e
  ]

  pub winner_in-none :
      (output : Option Output)
      → winner_in r group_id to_text spec base output ≡ none
      → (v : Value) → ¬ Names spec output v
  unfolding winner_in
  winner_in-none output e v named =
      let (o, d, is_output, is_dict, at_field, not_null) = named in
      let kept = non_null-kept (field_at spec.winner_field d) v at_field not_null in
      absurd (ground arith)
