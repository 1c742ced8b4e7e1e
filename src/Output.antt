-- ===== src/Output.antt =====
-- common/output.py: rendering, and the two ways to write an output file.
pub mod Files
pub mod Emit
mod Tests
