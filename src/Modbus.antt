-- ===== src/Modbus.antt =====
-- app/engine/modbus_pool.c: requests over Modbus TCP and RTU, and the pool of connections.
pub mod Frames
pub mod Requests
pub mod Pool
pub mod Replies
pub mod Registers
pub mod Slots
mod Tests
