-- ===== src/Rtps/Times.antt =====
-- The statistics that reconstruct_rtps_app_samples.py takes of times.
mod Statistics
unfoldable pub use Statistics.*
