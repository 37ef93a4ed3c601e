-- ===== src/Node.antt =====
-- app/engine/sparkplug.c: the Sparkplug edge node.
pub mod State
pub mod Buffer
pub mod Publishing
pub mod Sessions
pub mod History
pub mod Replay
pub mod Inbound
pub mod Host
pub mod Agreement
pub mod Accepted
pub mod Items
pub mod Steps
pub mod Runs
pub mod Topics
pub mod Settings
pub mod Configure
pub mod Registry
pub mod Filters
pub mod Fixtures
mod Tests
mod SettingsTests
