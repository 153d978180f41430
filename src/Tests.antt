-- ===== src/Tests.antt =====
-- Runs of the definitions, and the theorems at concrete data.
mod Scheduling
mod Reading
mod Reporting
mod Collecting
mod Choosing
mod Accounts
mod Serving
mod Identifying
mod Building
mod Commanding
mod Redacting
mod Writing
