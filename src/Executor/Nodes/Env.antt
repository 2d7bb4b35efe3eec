-- ===== src/Executor/Nodes/Env.antt =====
-- executor.py: the environment that a Node's process gets.
use cli_agentic_workflow.Prelude.{
  ◌≡◌, refl, String, Option-cases, if◌then◌else◌, get, inr, has, put, Dict, Option, arith, inl,
  get-put, List, none, eq_iff, ◌∷◌, some, [],
}
use cli_agentic_workflow.Executor.Nodes.{pick, resolve_declared_env, resolve_shell_env}

-- A declared name's value in the parent environment, and nothing else.
abbrev pub allowed : Dict String → List String → String → Option String
allowed environ declared name = if has name declared then get name environ else none

abbrev or_else : Option String → Option String → Option String
or_else none other = other
or_else (some x) other = some x

get-pick :
    (environ env : Dict String) (declared : List String) (name : String)
    → get name (pick environ env declared) ≡ or_else (allowed environ declared name) (get name env)
get-pick environ env [] name = refl
get-pick environ env (x ∷ declared) name = elim (Option-cases (get x environ)) [
  | inl e ↦ ground (arith, eq_iff name x, eq_iff x name, get-pick environ env declared name)
  | inr (v, e) ↦ ground (
    arith,
    eq_iff name x,
    eq_iff x name,
    get-put x name v env,
    get-pick environ (put x v env) declared name,
    Option-cases (get name environ),
  )
]

-- A Node that declares its variables, a shell Node or an agent Node, gets those of them that the parent
-- has, with the parent's values, and no other; an agent Node that declares none gets none, and a shell
-- Node that omits the list inherits.
pub resolve_env-allowed :
    (environ : Dict String) (declared : List String) (name : String)
    → (get name (resolve_declared_env environ (some declared)) ≡ allowed environ declared name)
      × (resolve_shell_env environ (some declared)
          ≡ some (resolve_declared_env environ (some declared)))
      × (resolve_declared_env environ none ≡ [])
      × (resolve_shell_env environ none ≡ none)
unfolding resolve_declared_env resolve_shell_env
resolve_env-allowed environ declared name =
    (ground (arith, get-pick environ [] declared name), refl, refl, refl)
