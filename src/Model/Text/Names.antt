-- ===== src/Model/Text/Names.antt =====
-- model.py: the env names that `_unique_valid_env_names` lets through.
use Prim.Native.Char.{code}
use cli_agentic_workflow.Prelude.{String, ◌≡◌, refl, true, arith}
use cli_agentic_workflow.Model.Text.{is_name_start, is_name_char, matches_rest, env_name_match}

-- Name characters throughout.
abbrev pub AllNameChars : String → Type 0
AllNameChars String.[] = Unit
AllNameChars (String.◌∷◌ c s) = (is_name_char (code c) ≡ true) × AllNameChars s

-- A POSIX name: a letter or an underscore, then letters, digits and underscores.
abbrev pub IsEnvName : String → Type 0
IsEnvName String.[] = ⊥
IsEnvName (String.◌∷◌ c s) = (is_name_start (code c) ≡ true) × AllNameChars s

-- `s + "\n"`
abbrev pub append_newline : String → String
append_newline String.[] = "\n"
append_newline (String.◌∷◌ c s) = String.◌∷◌ c (append_newline s)

rest-newline : (s : String) → AllNameChars s → matches_rest (append_newline s) ≡ true
unfolding matches_rest
rest-newline String.[] h = refl
rest-newline (String.◌∷◌ c s) h = ground (arith, rest-newline s h.1)

not_name : (s : String) → ¬ AllNameChars (append_newline s)
unfolding is_name_char is_name_start
not_name String.[] h = cc h.0
not_name (String.◌∷◌ c s) h = not_name s h.1

-- Every POSIX name with a newline behind it passes the check of env names too, since Python's `$`
-- matches before a final newline, although such a text is no name.
pub env_name_match-newline :
    (s : String)
    → IsEnvName s
    → (env_name_match (append_newline s) ≡ true) × (¬ IsEnvName (append_newline s))
unfolding env_name_match
env_name_match-newline (String.◌∷◌ c s) h =
    (ground (arith, rest-newline s h.1), λ k. not_name s k.1)
env_name_match-newline String.[] h = absurd h
