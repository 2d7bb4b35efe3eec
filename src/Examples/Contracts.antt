-- ===== src/Examples/Contracts.antt =====
-- contract.py: two validations against one schema file, and the cache's theorem on them.
use cli_agentic_workflow.Prelude.{
  refl, length, Result, String, ◌∷◌, some, map, ◌≤◌, raised, true, ◌≡◌, none, List, ℕ, [], ok,
}
use cli_agentic_workflow.Value.{Value}
use cli_agentic_workflow.Executor.Sound.{resolved}
use cli_agentic_workflow.Agent.Machine.{Read}
use cli_agentic_workflow.Agent.Contract.{
  Validator, Validated, Jsonschema, Files, ContractError, max_size, compile_validator,
  compile_validator_cached, compile_output_validator, check_instance, validate_output_contract,
}
use cli_agentic_workflow.Agent.Contract.Cached.{validate_uncached, IsStamped, serve, serve-uncached}

abbrev library : Jsonschema
library = record {
  loads = λ s. some (Value.str s);
  check_schema = λ v. none;
  validate =
      λ validator v. elim v [ Value.null ↦ Validated.violation "$" "null" | _ ↦ Validated.valid ];
}

abbrev files : Files
files = record { resolve = λ path. some ("/schema.json", 1); read_text = λ path. Read.text "{}" }

abbrev contents : String → ℕ → Result ContractError Validator
contents path stamp = ok (Value.str "{}")

abbrev calls : List (Files × String × Value)
calls = (files, "schema.json", Value.null) ∷ (files, "./schema.json", Value.bool true) ∷ []

stamped : IsStamped library contents files
unfolding compile_validator
stamped path resolved stamp e = refl

serve-uncached_example :
    ((serve library [] calls).1 ≡ map (λ c. validate_uncached library c.0 c.1 c.2) calls)
    × (length (serve library [] calls).0 ≤ max_size)
serve-uncached_example = serve-uncached library contents calls (stamped, (stamped, tt))

served :
    (serve library [] calls).1
    ≡ raised (ContractError.violated "schema.json" "$" "null") ∷ ok tt ∷ []
unfolding compile_validator compile_validator_cached compile_output_validator check_instance
    validate_output_contract
served = refl
