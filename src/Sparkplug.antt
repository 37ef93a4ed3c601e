-- ===== src/Sparkplug.antt =====
-- app/engine/sparkplug_pb.c: the codec of Sparkplug payloads.
pub mod Buffer
pub mod Wire
pub mod Metric
pub mod Encode
pub mod Decode
pub mod Payload
pub mod Layout
pub mod Writers
pub mod Written
pub mod Varint
pub mod Lengths
pub mod Loops
pub mod Fields
pub mod Shown
pub mod Called
pub mod Metrics
pub mod Sizes
pub mod RoundTrip
pub mod Hostile
pub mod Names
mod Tests
