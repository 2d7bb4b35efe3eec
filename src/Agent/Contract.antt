-- ===== src/Agent/Contract.antt =====
-- contract.py: the Output Contract of an agent Node, and the cache of compiled validators.
pub mod Cached
use cli_agentic_workflow.Prelude.{
  ◌==◌, ok, List, ◌∷◌, raised, some, String, Bool, ◌>>=◌, eqb, if◌then◌else◌, ◌&&◌, zero, suc, [],
  Result, ℕ, none, Option,
}
use cli_agentic_workflow.Value.{Value}
use cli_agentic_workflow.Agent.Machine.{Read, Conformance, unicode_decode_error}

-- A validator is the schema that it was constructed with: `Draft202012Validator(schema)`.
abbrev pub Validator : Type 0
Validator = Value

-- What `validate` of the library raises: a ValidationError, or an Unresolvable reference.
pub data Validated : Type 0 where
  valid : Validated
  violation : (location reason : String) → Validated
  unresolved : (reason : String) → Validated

-- jsonschema, and `json.loads`. `check_schema` gives the reason of a SchemaError.
pub record Jsonschema : Type 0 where
  pub loads : String → Option Value
  pub check_schema : Value → Option String
  pub validate : Validator → Value → Validated

-- The files at one time. `resolve(strict=True)` with `st_mtime_ns`: the resolved path and its stamp.
pub record Files : Type 0 where
  pub resolve : String → Option (String × ℕ)
  pub read_text : String → Read

-- `OutputContractError`, a constructor for each message; and the UnicodeDecodeError, which none of the
-- handlers names.
pub data ContractError : Type 0 where
  unreadable invalid_json : (path : String) → ContractError
  invalid_schema : (path reason : String) → ContractError
  violated : (path location reason : String) → ContractError
  unresolvable : (path reason : String) → ContractError
  undecodable : ContractError

-- The cache of `lru_cache`, the most recent entry first; the key is the resolved path and the stamp.
abbrev pub Cache : Type 0
Cache = List ((String × ℕ) × Validator)

abbrev pub max_size : ℕ
max_size = 64

abbrev pub same_key : String × ℕ → String × ℕ → Bool
same_key a b = a.0 == b.0 && eqb a.1 b.1

abbrev pub find_entry : String × ℕ → Cache → Option Validator
find_entry key [] = none
find_entry key ((k, v) ∷ cache) = if same_key k key then some v else find_entry key cache

abbrev pub forget : String × ℕ → Cache → Cache
forget key [] = []
forget key ((k, v) ∷ cache) = if same_key k key then cache else (k, v) ∷ forget key cache

abbrev pub take {ℓ} : {A : Type ℓ} → ℕ → List A → List A
take zero xs = []
take (suc n) [] = []
take (suc n) (x ∷ xs) = x ∷ take n xs

module _ (j : Jsonschema) where
  -- The body of `_compile_validator_cached`.
  abbrev pub checked_schema : String → Value → Result ContractError Validator
  checked_schema path schema = elim (j.check_schema schema) [
    | some reason ↦ raised (ContractError.invalid_schema path reason)
    | none ↦ ok schema
  ]

  unfoldable pub compile_validator : Files → String → Result ContractError Validator
  compile_validator files path = elim (files.read_text path) [
    | Read.os_error ↦ raised (ContractError.unreadable path)
    | Read.undecodable ↦ raised ContractError.undecodable
    | Read.text raw ↦ elim (j.loads raw) [
      | none ↦ raised (ContractError.invalid_json path)
      | some schema ↦ checked_schema path schema
    ]
  ]

  -- A result is remembered, and the least recent entry dropped; an exception is not remembered.
  abbrev pub remember :
      Cache → String × ℕ → Result ContractError Validator → Cache × Result ContractError Validator
  remember cache key (ok v) = (take max_size ((key, v) ∷ cache), ok v)
  remember cache key (raised e) = (cache, raised e)

  unfoldable pub compile_validator_cached :
      Files → Cache → String × ℕ → Cache × Result ContractError Validator
  unfolding compile_validator
  compile_validator_cached files cache key = elim (find_entry key cache) [
    | some v ↦ ((key, v) ∷ forget key cache, ok v)
    | none ↦ remember cache key (compile_validator files key.0)
  ]

  unfoldable pub compile_output_validator :
      Files → Cache → String → Cache × Result ContractError Validator
  unfolding compile_validator_cached
  compile_output_validator files cache schema_path = elim (files.resolve schema_path) [
    | none ↦ (cache, raised (ContractError.unreadable schema_path))
    | some key ↦ compile_validator_cached files cache key
  ]

  unfoldable pub check_instance : String → Value → Validator → Result ContractError (Unit {0})
  check_instance schema_path v validator = elim (j.validate validator v) [
    | Validated.valid ↦ ok tt
    | Validated.violation location reason ↦
        raised (ContractError.violated schema_path location reason)
    | Validated.unresolved reason ↦ raised (ContractError.unresolvable schema_path reason)
  ]

  unfoldable pub validate_output_contract :
      Files → Cache → String → Value → Cache × Result ContractError (Unit {0})
  unfolding compile_output_validator check_instance
  validate_output_contract files cache schema_path v =
      let (cache', compiled) = compile_output_validator files cache schema_path in
      (cache', compiled >>= check_instance schema_path v)

  -- What a Node's Attempt sees of it; `message` is the text of an error.
  abbrev pub as_conformance :
      (message : ContractError → String) → Result ContractError (Unit {0}) → Conformance
  as_conformance message (ok u) = Conformance.conforms
  as_conformance message (raised ContractError.undecodable) =
      Conformance.raises unicode_decode_error
  as_conformance message (raised e) = Conformance.breached (message e)
