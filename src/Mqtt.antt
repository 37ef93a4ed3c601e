-- ===== src/Mqtt.antt =====
-- app/engine/mqtt_client.c: the MQTT client.
pub mod Buffer
pub mod Length
pub mod Packets
pub mod Layout
pub mod Requests
pub mod Receive
pub mod Delivery
pub mod Inflight
pub mod Retries
pub mod GivenUp
pub mod Subscriptions
pub mod Owners
pub mod Client
pub mod Tracking
pub mod Identifiers
pub mod Worker
pub mod Brokers
mod Tests
