-- ===== src/Rules.antt =====
-- src/compliance_engine: the models of requirements, evidence, verifications and results, the executor
-- and two rules over an authoritative source.
pub mod Model
pub mod Calls
pub mod Executor
pub mod Passing
pub mod Registered
pub mod Gst
pub mod GstReturns
pub mod Pan
pub mod Udyam
pub mod Mca
pub mod Flagged
pub mod Company
pub mod Registrations
pub mod Engine
mod Tests
