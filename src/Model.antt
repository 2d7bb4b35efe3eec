-- ===== src/Model.antt =====
-- model.py: the Workflow IR and its validation.
pub mod Errors
pub mod Text
pub mod Predicate
pub mod Node
pub mod Order
pub mod Workflow
