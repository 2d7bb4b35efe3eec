-- ===== src/Status.antt =====
-- status.py: the status vocabulary of Runs and Nodes. The literals of `RunStatus` and `NodeStatus`
-- are the constructors; `FailureKind` is the subset that a failed Attempt carries.
use cli_agentic_workflow.Prelude.{Bool, true, false}

pub data RunStatus : Type 0 where
  running succeeded failed errored cancelled parked rejected : RunStatus

pub data NodeStatus : Type 0 where
  running succeeded failed timed_out errored skipped awaiting rejected : NodeStatus

pub data FailureKind : Type 0 where
  failed timed_out errored : FailureKind

-- A failure kind is a member of `NodeStatus`.
abbrev pub kind_status : FailureKind → NodeStatus
kind_status FailureKind.failed = NodeStatus.failed
kind_status FailureKind.timed_out = NodeStatus.timed_out
kind_status FailureKind.errored = NodeStatus.errored

abbrev pub is_succeeded : NodeStatus → Bool
is_succeeded NodeStatus.succeeded = true
is_succeeded _ = false

abbrev pub is_awaiting : NodeStatus → Bool
is_awaiting NodeStatus.awaiting = true
is_awaiting _ = false
