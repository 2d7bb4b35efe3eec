-- ===== src/Examples.antt =====
-- Concrete runs of the definitions, and the theorems at concrete inputs.
mod Runs
mod Rules
mod Resumes
mod Group
mod Controllers
mod Tournaments
mod Attempts
mod Contracts
mod Graphs
mod Logs
