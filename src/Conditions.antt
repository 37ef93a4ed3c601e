-- ===== src/Conditions.antt =====
-- app/engine/conditions.c: the conditions of a rule.
pub mod Evaluate
pub mod Laws
pub mod TriggerData
pub mod Occurs
pub mod Operators
pub mod Comparisons
mod Tests
