-- ===== src/Otel.antt =====
-- src/sepp/_otel.py: spans and trace contexts, the worker's metrics, and the logger.
pub mod Tracing
pub mod Metrics
pub mod Logging
