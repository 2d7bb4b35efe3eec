-- ===== src/Agent/Text.antt =====
-- Python's `str.strip`, `str.rstrip` and `str.splitlines`, which the adapters use.
use Prim.Native.Char.{code}
use cli_agentic_workflow.Prelude.{
  String, [], List, ◌&&◌, true, ◌||◌, Bool, leb, false, eqb, ◌∷◌, ℕ, ◌==◌, if◌then◌else◌,
}
use cli_agentic_workflow.Model.Text.{is_space}
pub use Prim.Native.String.{◌++◌ as ◌<>◌}

unfoldable pub lstrip : String → String
unfolding is_space
lstrip String.[] = String.[]
lstrip (String.◌∷◌ c s) = elim (is_space (code c)) [ true ↦ lstrip s | false ↦ String.◌∷◌ c s ]

unfoldable pub rstrip : String → String
unfolding is_space
rstrip String.[] = String.[]
rstrip (String.◌∷◌ c s) =
    let rest = rstrip s in
    if is_space (code c) && rest == String.[] then String.[] else String.◌∷◌ c rest

unfoldable pub strip : String → String
unfolding lstrip rstrip
strip s = lstrip (rstrip s)

-- Where `str.splitlines` splits.
abbrev pub is_line_break : ℕ → Bool
is_line_break c =
    leb 0x0a c && leb c 0x0d
    || leb 0x1c c && leb c 0x1e
    || eqb c 0x85
    || eqb c 0x2028
    || eqb c 0x2029

abbrev pub end_line : String → List String
end_line String.[] = []
end_line (String.◌∷◌ c s) = String.◌∷◌ c s ∷ []

-- `after_cr`: the character before was a carriage return, with which a newline makes one break.
unfoldable pub split_lines : (after_cr : Bool) (line : String) → String → List String
split_lines after_cr line String.[] = end_line line
split_lines after_cr line (String.◌∷◌ c s) = elim (after_cr && eqb (code c) 0x0a) [
  | true ↦ split_lines false line s
  | false ↦ elim (is_line_break (code c)) [
    | true ↦ line ∷ split_lines (eqb (code c) 0x0d) "" s
    | false ↦ split_lines false (line <> String.◌∷◌ c String.[]) s
  ]
]

unfoldable pub splitlines : String → List String
unfolding split_lines
splitlines = split_lines false ""
