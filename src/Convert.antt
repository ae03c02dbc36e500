-- ===== src/Convert.antt =====
-- src/sepp/_convert.py: conversions between protobuf messages and the domain types.
pub mod Time
pub mod Values
pub mod Outgoing
pub mod Rejection
pub mod Incoming
pub mod Info
pub mod Custom
pub mod Schedule
pub mod Decode
pub mod Echo
pub mod Replay
