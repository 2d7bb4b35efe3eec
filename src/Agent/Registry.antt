-- ===== src/Agent/Registry.antt =====
-- adapter.py: the registry of adapters.
use cli_agentic_workflow.Prelude.{none, ◌∷◌, Result, String, ok, Dict, get, Option, [], some, List}
use cli_agentic_workflow.Agent.Codex.{codex_cli, codex_invoke}
use cli_agentic_workflow.Agent.Subprocess.{SubprocessAdapter, fail}
use cli_agentic_workflow.Agent.Claude.{claude_cli, claude_invoke}
use cli_agentic_workflow.Agent.Machine.{Machine, AdapterError, Raised, Python, Adapter}
use cli_agentic_workflow.Agent.Mock.{mock_invoke}

abbrev pub builtin_adapter_names : List String
builtin_adapter_names = "mock" ∷ "claude.print" ∷ "codex.exec" ∷ []

-- `__init__` of the two subclasses: nothing is located yet.
abbrev pub fresh_adapter : String → SubprocessAdapter
fresh_adapter cli = record { cli_name = cli; resolved_cli = none }

module _ (m : Machine) (p : Python) where
  -- `_default_adapters`. An adapter's cache of its CLI's path does not change what it returns.
  unfoldable pub default_adapters : Dict Adapter
  unfolding mock_invoke claude_invoke codex_invoke
  default_adapters =
      ("mock", mock_invoke m p)
      ∷ ("claude.print", λ i. (claude_invoke m p (fresh_adapter claude_cli) i).1)
      ∷ ("codex.exec", λ i. (codex_invoke m p (fresh_adapter codex_cli) i).1)
      ∷ []

  -- `AdapterRegistry(adapters)`: no adapters, or an empty mapping, are the default ones.
  unfoldable pub registry : Option (Dict Adapter) → Dict Adapter
  unfolding default_adapters
  registry none = default_adapters
  registry (some []) = default_adapters
  registry (some (a ∷ adapters)) = a ∷ adapters

unfoldable pub resolve : Dict Adapter → String → Result Raised Adapter
resolve adapters name = elim (get name adapters) [
  | none ↦ fail (AdapterError.unknown_adapter name)
  | some a ↦ ok a
]
