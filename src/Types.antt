-- ===== src/Types.antt =====
-- src/sepp/types.py: the domain types, and the checks that their constructors make.
pub mod Time
pub mod Faults
pub mod Priority
pub mod Trace
pub mod Requests
pub mod Jobs
pub mod Text
pub mod Construct
