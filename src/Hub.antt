-- ===== src/Hub.antt =====
-- The hub of crates/kaigi-hub-echo/src/main.rs: rooms, their policies, and the frame handlers.
pub mod State
pub mod Clock
pub mod Hex
pub mod Roles
pub mod Billing
pub mod Admission
pub mod Connect
pub mod Lobby
pub mod Invariant
pub mod Succession
pub mod Capacity
pub mod Sharing
pub mod Handles
pub mod Anonymous
pub mod GroupKeys
pub mod Policy
pub mod Moderation
pub mod Relay
pub mod Reach
