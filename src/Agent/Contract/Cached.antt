-- ===== src/Agent/Contract/Cached.antt =====
-- contract.py: the cache does not show in what validation says.
use cli_agentic_workflow.Prelude.{
  String, ok, some, eq_iff, All, length, ◌≤◌, suc, ◌≡◌, [], Result, none, inr, zero, inl, eqb_iff,
  Bool-cases, ◌∷◌, raised, ℕ, ◌>>=◌, arith, sym, map, List, refl, Option-cases, ap, ◌∙◌,
}
use cli_agentic_workflow.Value.{Value}
use cli_agentic_workflow.Agent.Contract.{
  Validator, Jsonschema, Files, ContractError, Cache, max_size, same_key, find_entry, forget, take,
  compile_validator, check_instance, remember, compile_validator_cached, compile_output_validator,
  validate_output_contract,
}
use cli_agentic_workflow.Executor.Skips.{same}

module _ (j : Jsonschema) where
  -- Validation that compiles the schema each time.
  abbrev pub validate_uncached : Files → String → Value → Result ContractError (Unit {0})
  validate_uncached files schema_path v = elim (files.resolve schema_path) [
    | none ↦ raised (ContractError.unreadable schema_path)
    | some key ↦ compile_validator j files key.0 >>= check_instance j schema_path v
  ]

  -- A file with one stamp has one content: `contents` says what compiling it gives.
  abbrev pub IsStamped : (String → ℕ → Result ContractError Validator) → Files → Type 0
  IsStamped contents files =
      (path resolved : String) (stamp : ℕ)
      → files.resolve path ≡ some (resolved, stamp)
      → compile_validator j files resolved ≡ contents resolved stamp

  module _ (contents : String → ℕ → Result ContractError Validator) where
    abbrev Fresh : (String × ℕ) × Validator → Type 0
    Fresh e = contents e.0.0 e.0.1 ≡ ok e.1

    -- Every entry is what compiling its file gives, and there are no more than the cache may hold.
    abbrev IsSound : Cache → Type 0
    IsSound cache = All Fresh cache × (length cache ≤ max_size)

    find_entry-Fresh :
        (key : String × ℕ) (v : Validator) (cache : Cache)
        → All Fresh cache
        → find_entry key cache ≡ some v
        → contents key.0 key.1 ≡ ok v
    find_entry-Fresh key v [] a e = absurd (ground arith)
    find_entry-Fresh key v ((k, w) ∷ cache) a e = elim (Bool-cases (same_key k key)) [
      | inl f ↦
          let s : k.0 ≡ key.0 = ground (arith, eq_iff k.0 key.0) in
          let t : k.1 ≡ key.1 = ground (arith, eqb_iff k.1 key.1) in
          let u : w ≡ v = ground arith in rw (← s, ← t, ← u) a.0
      | inr f ↦ find_entry-Fresh key v cache a.1 (ground arith)
    ]

    forget-Fresh :
        (key : String × ℕ) (cache : Cache) → All Fresh cache → All Fresh (forget key cache)
    forget-Fresh key [] a = tt
    forget-Fresh key ((k, w) ∷ cache) a = elim (Bool-cases (same_key k key)) [
      | inl f ↦ rw f a.1
      | inr f ↦ rw f (a.0, forget-Fresh key cache a.1)
    ]

    length-forget :
        (key : String × ℕ) (v : Validator) (cache : Cache)
        → find_entry key cache ≡ some v
        → suc (length (forget key cache)) ≡ length cache
    length-forget key v [] e = absurd (ground arith)
    length-forget key v ((k, w) ∷ cache) e = ground (arith, length-forget key v cache)

    take-Fresh : (n : ℕ) (cache : Cache) → All Fresh cache → All Fresh (take n cache)
    take-Fresh zero cache a = tt
    take-Fresh (suc n) [] a = tt
    take-Fresh (suc n) (e ∷ cache) a = (a.0, take-Fresh n cache a.1)

    length-take : (n : ℕ) (cache : Cache) → length (take n cache) ≤ n
    length-take zero cache = omega arith
    length-take (suc n) [] = omega arith
    length-take (suc n) (e ∷ cache) = omega (arith, length-take n cache)

    remember-IsSound :
        (cache : Cache) (key : String × ℕ) (r : Result ContractError Validator)
        → IsSound cache
        → contents key.0 key.1 ≡ r
        → IsSound (remember j cache key r).0 × ((remember j cache key r).1 ≡ r)
    remember-IsSound cache key (ok v) s e = (
      (take-Fresh max_size ((key, v) ∷ cache) (e, s.0), length-take max_size ((key, v) ∷ cache)),
      refl,
    )
    remember-IsSound cache key (raised x) s e = (s, refl)

    compile_validator_cached-IsSound :
        (files : Files) (cache : Cache) (key : String × ℕ)
        → IsSound cache
        → compile_validator j files key.0 ≡ contents key.0 key.1
        → IsSound (compile_validator_cached j files cache key).0
          × ((compile_validator_cached j files cache key).1 ≡ compile_validator j files key.0)
    unfolding compile_validator_cached
    compile_validator_cached-IsSound files cache key s e =
        elim (Option-cases (find_entry key cache)) [
          | inr (v, f) ↦
              let fresh = find_entry-Fresh key v cache s.0 f in
              rw (f, compile_validator_cached)
                (
                  (
                    (fresh, forget-Fresh key cache s.0),
                    omega (arith, length-forget key v cache f, s.1),
                  ),
                  sym (e ∙ fresh),
                )
          | inl f ↦
              rw (f, compile_validator_cached)
                (remember-IsSound cache key (compile_validator j files key.0) s (sym e))
        ]

    validate-IsSound :
        (files : Files) (cache : Cache) (path : String) (v : Value)
        → IsStamped contents files
        → IsSound cache
        → IsSound (validate_output_contract j files cache path v).0
          × ((validate_output_contract j files cache path v).1 ≡ validate_uncached files path v)
    unfolding validate_output_contract compile_output_validator
    validate-IsSound files cache path v h s = elim (Option-cases (files.resolve path)) [
      | inl f ↦ rw (f, compile_output_validator, validate_uncached) (s, refl)
      | inr (key, f) ↦
          let (sound, same) =
            compile_validator_cached-IsSound files cache key s (h path key.0 key.1 f) in
          rw (f, compile_output_validator, validate_uncached)
            (sound, ap (λ r. r >>= check_instance j path v) same)
    ]

  -- Calls in a row, each with the files as they are at its time.
  abbrev pub serve :
      Cache → List (Files × String × Value) → Cache × List (Result ContractError (Unit {0}))
  serve cache [] = (cache, [])
  serve cache ((files, path, v) ∷ calls) =
      let (cache', r) = validate_output_contract j files cache path v in
      let (cache'', rest) = serve cache' calls in (cache'', r ∷ rest)

  serve-IsSound :
      (contents : String → ℕ → Result ContractError Validator) (cache : Cache)
      (calls : List (Files × String × Value))
      → IsSound contents cache
      → All (λ c. IsStamped contents c.0) calls
      → IsSound contents (serve cache calls).0
        × ((serve cache calls).1 ≡ map (λ c. validate_uncached c.0 c.1 c.2) calls)
  serve-IsSound contents cache [] s h = (s, refl)
  serve-IsSound contents cache ((files, path, v) ∷ calls) s h =
      let (sound, same) = validate-IsSound contents files cache path v h.0 s in
      let (sound', same') =
        serve-IsSound contents (validate_output_contract j files cache path v).0 calls sound h.1 in
      (sound', rw (same, same') refl)

-- However many contracts are validated in a row from an empty cache, each says what it says without a
-- cache, and the cache stays within its size; provided that the content of a schema file does not change
-- under one path and stamp.
pub serve-uncached :
    (j : Jsonschema) (contents : String → ℕ → Result ContractError Validator)
    (calls : List (Files × String × Value))
    → All (λ c. IsStamped j contents c.0) calls
    → ((serve j [] calls).1 ≡ map (λ c. validate_uncached j c.0 c.1 c.2) calls)
      × (length (serve j [] calls).0 ≤ max_size)
serve-uncached j contents calls h =
    let (sound, same) = serve-IsSound j contents [] calls (tt, omega arith) h in (same, sound.1)
