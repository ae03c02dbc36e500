-- ===== src/Worker.antt =====
-- src/sepp/worker.py: the worker that reserves jobs, runs handlers, and acks or nacks.
pub mod Config
pub mod Handlers
pub mod Client
pub mod Heartbeat
pub mod Process
pub mod Loop
pub mod Race
pub mod Guard
pub mod System
pub mod Fleet
