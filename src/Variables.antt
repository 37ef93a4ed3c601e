-- ===== src/Variables.antt =====
-- app/engine/variables.c: named variables and counters.
pub mod Store
pub mod Laws
pub mod Operations
pub mod Runs
pub mod Persist
mod Tests
