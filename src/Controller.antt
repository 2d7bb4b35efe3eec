-- ===== src/Controller.antt =====
-- controller.py: the Pattern Controllers, which sequence Runs into a Run Group.
pub mod Materialize
pub mod Group
pub mod Drive
pub mod Tournament
pub mod Entries
