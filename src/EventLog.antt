-- ===== src/EventLog.antt =====
-- app/engine/event_log.c: the ring of rule executions.
pub mod Ring
pub mod Recent
pub mod Find
pub mod Json
pub mod Listing
pub mod Load
pub mod Entry
pub mod RoundTrip
mod Tests
