-- ===== src/Observability.antt =====
-- src/infrastructure/system and src/infrastructure/observability: what goes into logs and metrics.
pub mod LogSanitizer
pub mod MetricsRecorder
