-- ===== src/Agent/Located.antt =====
-- subprocess_adapter.py and adapter.py: the location of a CLI.
use cli_agentic_workflow.Prelude.{◌≡◌, String, ok, none, some, arith, inl, Option-cases, inr}
use cli_agentic_workflow.Agent.Subprocess.{SubprocessAdapter, resolve_cli_path}
use cli_agentic_workflow.Agent.Machine.{Machine, Python}

-- A CLI that was located once is not looked for again, on whatever machine, and what is returned is the
-- path that PATH gave; no adapter forgets its path, and one whose CLI is missing raises.
resolve_cli_path-cached :
    (m m' : Machine) (p : Python) (a a' : SubprocessAdapter) (context context' : String)
    (path : String)
    → resolve_cli_path m p a context ≡ (a', ok path)
    → (resolve_cli_path m' p a' context' ≡ (a', ok path))
      × (a.resolved_cli ≡ none → m.which a.cli_name ≡ some path)
      × (a'.cli_name ≡ a.cli_name)
unfolding resolve_cli_path
resolve_cli_path-cached m m' p a a' context context' path e = elim (Option-cases a.resolved_cli) [
  | inr (q, f) ↦ (ground arith, λ g. absurd (ground arith), ground arith)
  | inl f ↦ elim (Option-cases (m.which a.cli_name)) [
    | inl g ↦ absurd (ground arith)
    | inr (q, g) ↦ (ground arith, λ _. ground arith, ground arith)
  ]
]
