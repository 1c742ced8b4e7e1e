-- ===== src/Health.antt =====
-- opsforge/healthctl/healthctl.py: configured checks, their dependencies, the scheduler and the
-- verdict.
pub mod Types
pub mod Names
pub mod Json
pub mod Aggregate
pub mod Depends
pub mod Config
pub mod Schedule
pub mod Retry
pub mod Main
mod Tests
