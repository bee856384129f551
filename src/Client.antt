-- ===== src/Client.antt =====
-- The session of the desktop client (crates/kaigi-linux-client/src/lib.rs).
pub mod Model
pub mod Frames
pub mod Policy
pub mod Participants
pub mod Reducer
pub mod Session
pub mod Identity
pub mod Telemetry
pub mod Runtime
pub mod Outbound
pub mod Phases
pub mod Epochs
pub mod Authority
pub mod Calls
pub mod Backoff
pub mod Background
pub mod Recovery
pub mod Acks
pub mod Json
pub mod Words
pub mod Decode
pub mod Encode
pub mod Roundtrip
pub mod Members
