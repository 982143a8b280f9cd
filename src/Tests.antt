-- ===== src/Tests.antt =====
-- Runs of tox-sequenced at concrete inputs.
pub mod Sets
pub mod Messages
pub mod Budgets
pub mod Sketches
pub mod Sessions
pub mod Merkles
