-- ===== src/Reporters.antt =====
-- internal/reporters: the reports of a run.
pub mod Redact
pub mod Sanitize
pub mod Table
pub mod Report
