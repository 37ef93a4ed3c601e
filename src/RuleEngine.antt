-- ===== src/RuleEngine.antt =====
-- app/engine/rule_engine.c: the rule store and what a trigger does to it.
pub mod Rule
pub mod Gates
pub mod Dispatch
pub mod Checks
pub mod Triggered
pub mod Verdict
pub mod Judged
pub mod Firing
pub mod Listing
pub mod Store
pub mod Fields
pub mod Saved
pub mod Ids
pub mod Edits
pub mod LongIds
pub mod Steps
pub mod Runs
pub mod Subscribe
mod Tests
