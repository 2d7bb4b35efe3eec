-- ===== src/State.antt =====
-- state.py: the State database of a run directory: its tables, and the operations of `StateStore`.
use cli_agentic_workflow.Prelude.{
  ℕ, String, List, [], ◌∷◌, ◌++◌, Option, none, some, Bool, not, ◌&&◌, ◌==◌, ℤ, Result, ok, raised,
  eqb, ltb, map, keep, exists_in, Dict, if◌then◌else◌,
}
use cli_agentic_workflow.Status.{RunStatus, NodeStatus}
use cli_agentic_workflow.Evaluate.{Output}

-- executor.py: why a Node was skipped.
pub data SkipCause : Type 0 where
  blocked when_false all_branches_skipped : SkipCause

pub record RunRow : Type 0 where
  pub run_id : String
  pub workflow_name : String
  pub definition_checksum : String
  pub status : RunStatus
  pub created_at : String
  pub finished_at : Option String
  pub error : Option String

pub record NodeRow : Type 0 where
  pub run_id : String
  pub node_id : String
  pub status : NodeStatus
  pub cause : Option SkipCause

pub record AttemptRow : Type 0 where
  pub run_id : String
  pub node_id : String
  pub attempt : ℕ
  pub started_at : String
  pub finished_at : String
  pub exit_status : ℤ
  pub output : Output

pub record MembershipRow : Type 0 where
  pub run_id : String
  pub run_group_id : String
  pub iteration_index : ℕ

pub record StateStore : Type 0 where
  pub runs : List RunRow
  pub nodes : List NodeRow
  pub attempts : List AttemptRow
  pub memberships : List MembershipRow

-- `sqlite3.IntegrityError`: a primary key that is there, or a foreign key that is not.
pub data IntegrityError : Type 0 where
  run_exists node_exists attempt_exists no_such_run no_such_node : IntegrityError

abbrev pub Written : Type 0
Written = Result IntegrityError StateStore

abbrev pub empty_store : StateStore
empty_store = record { runs = []; nodes = []; attempts = []; memberships = [] }

module _ (run_id : String) where
  abbrev pub is_run : RunRow → Bool
  is_run r = r.run_id == run_id

  abbrev pub is_node : String → NodeRow → Bool
  is_node node_id r = r.run_id == run_id && r.node_id == node_id

  abbrev pub is_attempt : String → ℕ → AttemptRow → Bool
  is_attempt node_id attempt r = r.run_id == run_id && r.node_id == node_id && eqb r.attempt attempt

  unfoldable pub has_run : StateStore → Bool
  has_run db = exists_in is_run db.runs

  unfoldable pub has_node : String → StateStore → Bool
  has_node node_id db = exists_in (is_node node_id) db.nodes

  unfoldable pub has_attempt : String → ℕ → StateStore → Bool
  has_attempt node_id attempt db = exists_in (is_attempt node_id attempt) db.attempts

  abbrev pub update_run : (RunRow → RunRow) → StateStore → StateStore
  update_run f db = record db { runs = map (λ r. if is_run r then f r else r) db.runs }

  abbrev pub update_node : String → (NodeRow → NodeRow) → StateStore → StateStore
  update_node node_id f db = record db {
    nodes = map (λ r. if is_node node_id r then f r else r) db.nodes;
  }

  unfoldable pub record_run_started :
      (workflow_name definition_checksum created_at : String) → StateStore → Written
  unfolding has_run
  record_run_started workflow_name definition_checksum created_at db =
      if has_run db
      then raised run_exists
      else ok (record db {
        runs =
            db.runs
            ++ record {
              run_id = run_id;
              workflow_name = workflow_name;
              definition_checksum = definition_checksum;
              status = RunStatus.running;
              created_at = created_at;
              finished_at = none;
              error = none;
            }
              ∷ [];
      })

  unfoldable pub record_run_finished : RunStatus → String → StateStore → StateStore
  record_run_finished status finished_at =
      update_run (λ r. record r { status = status; finished_at = some finished_at })

  unfoldable pub record_run_running : StateStore → StateStore
  record_run_running =
      update_run (λ r. record r { status = RunStatus.running; finished_at = none; error = none })

  unfoldable pub record_run_errored : String → String → StateStore → StateStore
  record_run_errored error finished_at = update_run (λ r. record r {
    status = RunStatus.errored;
    error = some error;
    finished_at = some finished_at;
  })

  unfoldable pub record_run_parked : StateStore → StateStore
  record_run_parked = update_run (λ r. record r { status = RunStatus.parked })

  -- INSERT INTO node: the run is there, and the key is not.
  unfoldable pub insert_node : String → NodeStatus → Option SkipCause → StateStore → Written
  unfolding has_run has_node
  insert_node node_id status cause db =
      if has_node node_id db
      then raised node_exists
      else if has_run db
      then ok (record db {
        nodes =
            db.nodes
            ++ record { run_id = run_id; node_id = node_id; status = status; cause = cause } ∷ [];
      })
      else raised no_such_run

  unfoldable pub record_node_started : String → StateStore → Written
  unfolding insert_node
  record_node_started node_id = insert_node node_id NodeStatus.running none

  unfoldable pub record_node_running : String → StateStore → StateStore
  record_node_running node_id = update_node node_id (λ r. record r { status = NodeStatus.running })

  unfoldable pub record_node_finished :
      String → NodeStatus → Option SkipCause → StateStore → StateStore
  record_node_finished node_id status cause =
      update_node node_id (λ r. record r { status = status; cause = cause })

  unfoldable pub record_node_skipped : String → Option SkipCause → StateStore → Written
  unfolding insert_node
  record_node_skipped node_id cause = insert_node node_id NodeStatus.skipped cause

  -- ON CONFLICT DO UPDATE SET status
  unfoldable pub record_node_awaiting : String → StateStore → Written
  unfolding insert_node has_node
  record_node_awaiting node_id db =
      if has_node node_id db
      then ok (update_node node_id (λ r. record r { status = NodeStatus.awaiting }) db)
      else insert_node node_id NodeStatus.awaiting none db

  unfoldable pub record_attempt :
      (node_id : String) (attempt : ℕ) (started_at finished_at : String) (exit_status : ℤ)
      (output : Output)
      → StateStore
      → Written
  unfolding has_node has_attempt
  record_attempt node_id attempt started_at finished_at exit_status output db =
      if has_attempt node_id attempt db
      then raised attempt_exists
      else if has_node node_id db
      then ok (record db {
        attempts =
            db.attempts
            ++ record {
              run_id = run_id;
              node_id = node_id;
              attempt = attempt;
              started_at = started_at;
              finished_at = finished_at;
              exit_status = exit_status;
              output = output;
            }
              ∷ [];
      })
      else raised no_such_node

  -- INSERT OR REPLACE
  unfoldable pub record_run_group_membership : String → ℕ → StateStore → StateStore
  record_run_group_membership run_group_id iteration_index db = record db {
    memberships =
        keep (λ m. not (m.run_id == run_id)) db.memberships
        ++ record {
          run_id = run_id;
          run_group_id = run_group_id;
          iteration_index = iteration_index;
        }
          ∷ [];
  }

  abbrev pub find_membership : List MembershipRow → Option (String × ℕ)
  find_membership [] = none
  find_membership (m ∷ rest) =
      if m.run_id == run_id then some (m.run_group_id, m.iteration_index) else find_membership rest

  unfoldable pub run_group_membership : StateStore → Option (String × ℕ)
  run_group_membership db = find_membership db.memberships

  abbrev pub find_status : List RunRow → Option RunStatus
  find_status [] = none
  find_status (r ∷ rest) = if is_run r then some r.status else find_status rest

  unfoldable pub run_status : StateStore → Option RunStatus
  run_status db = find_status db.runs

  abbrev statuses_of : List NodeRow → Dict NodeStatus
  statuses_of [] = []
  statuses_of (r ∷ rest) =
      if r.run_id == run_id then (r.node_id, r.status) ∷ statuses_of rest else statuses_of rest

  unfoldable pub node_statuses : StateStore → Dict NodeStatus
  node_statuses db = statuses_of db.nodes

  abbrev causes_of : List NodeRow → Dict (Option SkipCause)
  causes_of [] = []
  causes_of (r ∷ rest) =
      if r.run_id == run_id then (r.node_id, r.cause) ∷ causes_of rest else causes_of rest

  unfoldable pub node_causes : StateStore → Dict (Option SkipCause)
  node_causes db = causes_of db.nodes

  -- ORDER BY attempt DESC LIMIT 1
  abbrev pub latest : String → Option AttemptRow → List AttemptRow → Option AttemptRow
  latest node_id best [] = best
  latest node_id best (r ∷ rest) =
      latest node_id
        (if r.run_id == run_id && r.node_id == node_id
          then elim best [
            | none ↦ some r
            | some b ↦ if ltb b.attempt r.attempt then some r else some b
          ]
          else best)
        rest

  unfoldable pub node_output : String → StateStore → Option Output
  node_output node_id db = elim (latest node_id none db.attempts) [
    | none ↦ none
    | some r ↦ some r.output
  ]

  unfoldable pub max_attempt : String → StateStore → Option ℕ
  max_attempt node_id db = elim (latest node_id none db.attempts) [
    | none ↦ none
    | some r ↦ some r.attempt
  ]
