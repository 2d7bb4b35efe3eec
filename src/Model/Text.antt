-- ===== src/Model/Text.antt =====
-- model.py, lines 35-80: the checks of texts, `_require_non_blank` and `_unique_valid_env_names`.
pub mod Names
use Prim.Native.Char.{code}
use cli_agentic_workflow.Prelude.{
  ℕ, String, List, [], ◌∷◌, Option, none, some, Bool, true, false, not, ◌&&◌, ◌||◌, ◌==◌, has, leb,
  eqb, if◌then◌else◌, ok, raised, raise_if, ◌>>◌,
}
use cli_agentic_workflow.Model.Errors.{Checked, blank, invalid_env_name, duplicate_env_name}

-- `str.isspace` of a character: what `str.strip` takes off.
unfoldable pub is_space : ℕ → Bool
is_space c =
    leb 0x09 c && leb c 0x0d
    || leb 0x1c c && leb c 0x20
    || eqb c 0x85
    || eqb c 0xa0
    || eqb c 0x1680
    || leb 0x2000 c && leb c 0x200a
    || eqb c 0x2028
    || eqb c 0x2029
    || eqb c 0x202f
    || eqb c 0x205f
    || eqb c 0x3000

-- `not value.strip()`: every character is white space.
unfoldable pub is_blank : String → Bool
unfolding is_space
is_blank String.[] = true
is_blank (String.◌∷◌ c s) = is_space (code c) && is_blank s

unfoldable pub require_non_blank : String → Checked String
unfolding is_blank
require_non_blank value = if is_blank value then raised blank else ok value

-- [A-Za-z_] and [A-Za-z0-9_]
unfoldable pub is_name_start : ℕ → Bool
is_name_start c = leb b'A' c && leb c b'Z' || leb b'a' c && leb c b'z' || eqb c b'_'

unfoldable pub is_name_char : ℕ → Bool
unfolding is_name_start
is_name_char c = is_name_start c || leb b'0' c && leb c b'9'

-- `[A-Za-z0-9_]*$` at a position. Python's `$` matches at the end and before a newline at the end.
unfoldable pub matches_rest : String → Bool
unfolding is_name_char
matches_rest String.[] = true
matches_rest (String.◌∷◌ c s) =
    is_name_char (code c) && matches_rest s || eqb (code c) 0x0a && s == String.[]

-- `_ENV_NAME_PATTERN.match(name)` for `^[A-Za-z_][A-Za-z0-9_]*$`.
unfoldable pub env_name_match : String → Bool
unfolding matches_rest is_name_start
env_name_match String.[] = false
env_name_match (String.◌∷◌ c s) = is_name_start (code c) && matches_rest s

-- The loop over `names`, with `seen`.
unfoldable pub check_env_names : List String → List String → Checked (Unit {0})
unfolding env_name_match
check_env_names seen [] = ok tt
check_env_names seen (name ∷ names) =
    raise_if (not (env_name_match name)) (invalid_env_name name)
    >> (raise_if (has name seen) (duplicate_env_name name) >> check_env_names (name ∷ seen) names)

-- `None` is the omitted `env`, and passes through.
unfoldable pub unique_valid_env_names : Option (List String) → Checked (Option (List String))
unfolding check_env_names
unique_valid_env_names none = ok none
unique_valid_env_names (some names) = check_env_names [] names >> ok (some names)
