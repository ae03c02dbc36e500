-- ===== src/Client.antt =====
-- src/sepp/client.py: the gRPC client, over an interface for the network, the clock and floats.
pub mod Env
pub mod Monad
pub mod Policy
pub mod Retry
pub mod Trace
pub mod Enqueue
pub mod Reserve
pub mod Lease
pub mod Admin
pub mod Connect
pub mod Clean
