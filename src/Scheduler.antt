-- ===== src/Scheduler.antt =====
-- app/engine/scheduler.c: the table of schedules and what a tick fires.
pub mod Entry
pub mod Tick
pub mod Unregister
pub mod Firings
pub mod Times
pub mod Cron
pub mod Parse
pub mod Ranges
pub mod Scanned
pub mod Fields
pub mod Masks
pub mod Expressions
pub mod Register
pub mod Registered
pub mod CronRules
mod Tests
mod CronTests
