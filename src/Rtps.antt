-- ===== src/Rtps.antt =====
-- scripts/experiment/reconstruct_rtps_app_samples.py: application-level sequence evidence from
-- a captured RTPS session.
pub mod Records
pub mod Fields
pub mod SequenceSet
pub mod Classify
pub mod Runs
pub mod Times
pub mod Summary
pub mod Links
pub mod Condition
pub mod Analyze
