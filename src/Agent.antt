-- ===== src/Agent.antt =====
-- adapter.py, subprocess_adapter.py, claude_print.py, codex_exec.py, contract.py: how an agent Node's
-- CLI is called, and what becomes of its output.
pub mod Text
pub mod Machine
pub mod Subprocess
pub mod Mock
pub mod Claude
pub mod Codex
pub mod Registry
pub mod Results
pub mod Events
pub mod Located
pub mod Contract
