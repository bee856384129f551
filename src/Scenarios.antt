-- ===== src/Scenarios.antt =====
-- Small rooms and connections on which the theorems are applied.
mod Fixtures
mod Streams
mod Rooms
mod Relays
mod Members
mod Money
mod Government
mod Sessions
mod Links
