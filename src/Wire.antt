-- ===== src/Wire.antt =====
-- The messages of src/sepp/v1/queue_pb2.py, and what the client uses of the protobuf runtime.
pub mod WellKnown
pub mod Messages
pub mod Runtime
pub mod Service
