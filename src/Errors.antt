-- ===== src/Errors.antt =====
-- src/sepp/errors.py: the exceptions and rejection values, and the maps from gRPC errors to them.
pub mod Codes
pub mod Rejection
pub mod Exceptions
pub mod Mapping
pub mod Laws
pub mod Text
