-- ===== src/Lib.antt =====
-- caw: a local-first workflow kernel. A Workflow is a graph of Nodes; a Run executes it.
--
-- The parts, and the files that model them (paths from the repository's root):
-- - src/caw/status.py, the statuses of Runs and Nodes: Status. Each literal is a constructor.
-- - src/caw/model.py, the Workflow and its validation: Model. `Model.Text` has the checks of texts,
--   `Model.Predicate` the `when` predicates with `_exactly_one_shape`, `fold` and `leaf_refs`,
--   `Model.Node` and `Model.Workflow` the records and their validators, and `Model.Order` Kahn's
--   algorithm (`_peel_in_declaration_order`), `_find_cycle` and `execution_order`. A validator is
--   a function into `Checked`, whose errors are the `raise ValueError`s, one constructor each.
--   pydantic reports every failing field; the model reports the first.
-- - src/caw/predicate.py, the evaluation of a predicate on the outputs of upstream Nodes: Evaluate,
--   on the Python values of `Value`. Evaluate/Meaning says, with no reference to the evaluation,
--   what a predicate states.
-- - src/caw/state.py, the sqlite database: State. A table is a list of rows; a primary or a foreign
--   key that a statement breaches is an `IntegrityError`.
-- - src/caw/executor.py: Executor. `Executor.Outcome` has the results, `Executor.Scheduler` the state
--   of `_Scheduler` and readiness, `Executor.Launch` `_launch_ready`, `Executor.Skips` the recording
--   of a skip and the walk over dependents, `Executor.Attempts` what becomes of a finished Attempt,
--   `Executor.Loop` the rounds of `run` and both ways in which a Run is finalized, and
--   `Executor.Resume` `execute_run` and `resume_run` up to the scheduler that they drive.
-- - src/caw/patterns.py, the expansion of a `pattern:` into nodes: Patterns.
-- - src/caw/controller.py, the Pattern Controllers, which sequence Runs into a Run Group: Controller.
--   `Controller.Materialize` has the raw workflow of an iteration, `Controller.Group` the specs,
--   group.json and the reads of a run directory, `Controller.Drive` the loop that loop-until-done and
--   adversarial verification share, each with its own `Policy`, `Controller.Entries` the functions
--   of both, and `Controller.Tournament` the tournament.
-- - src/caw/adapter.py, subprocess_adapter.py, claude_print.py, codex_exec.py and contract.py: Agent.
--   `Agent.Machine` has what the machine and Python's library give: the environment, the files, how a
--   spawned process ends, JSON, `str` and `repr`. `Agent.Subprocess` is the shared base of the two
--   CLI adapters, `Agent.Claude` and `Agent.Codex`; `Agent.Mock` replays fixtures; `Agent.Registry`
--   resolves names; `Agent.Contract` validates outputs with a cache of validators. An error message
--   is a constructor with what it names.
-- - `_execute_node` and what it calls (executor.py): Executor.Nodes.
-- - src/caw/events.py, the file of Events: Trace. The file is its lines and what stands behind the last
--   newline; `json` and `int` are an argument.
-- - Prelude has the lists, dicts, integers and results that all of them share; Examples has
--   concrete inputs.
--
-- How they interact: a validated Workflow gives the Nodes in execution order, which are the
-- `Context` of a Run. The scheduler reads `when` gates with Evaluate, writes each step to State and
-- appends it to the events, and ends with a `RunResult`.
--
-- A Controller calls `normalize_workflow`, `execute_run` and `resume_run`. They are a `Runner`, an
-- argument of every Controller: a theorem holds whatever a Run comes to. A Controller's loop runs no
-- more rounds than its cap, which is its fuel.
--
-- asyncio: `run` takes the batches that `asyncio.wait` returns as an argument, so a theorem about
-- `run` is one about every order in which tasks end. A task is its Node's result, or a crash. Any
-- result may come back; Executor.Nodes says which results an Attempt can have.
--
-- Fuel: a walk over dependents has as much as the graph has edges, plus the pairs that it starts
-- with, since no Node is skipped twice; the launching loop has one pass more than there are Nodes,
-- since each pass but the last closes an open Node; Kahn's loop has the number of Nodes. Where fuel
-- gives out the scheduler raises `out_of_fuel`, which is no exception of the program.
--
-- Not modelled: how a process group is killed and reaped, the CLI, reports, scaffolding, file
-- layout, which are input and output; how a Controller's spec is loaded and group.json is kept as
-- a file; the parsing of YAML and the types of its values, which pydantic checks; `str` of a
-- float, a list or a dict, which a validated `contains` is never asked of; how `Path` normalizes a
-- text. A JSON null in `structured_output` counts as absent, as in the source.
mod Prelude
pub mod Status
pub mod Value
pub mod Model
pub mod Evaluate
pub mod State
pub mod Executor
pub mod Patterns
pub mod Controller
pub mod Agent
pub mod Trace
mod Examples
