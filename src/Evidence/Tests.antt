-- ===== src/Evidence/Tests.antt =====
-- Runs of the evidence pipeline on a sample body, and the properties at concrete inputs.
pub mod Samples
pub mod Runs
mod Witnesses
