-- ===== src/Pipeline.antt =====
-- scripts/experiment/run_p4_pipeline.py: the steps of the P4 release, run one behind the other.
mod Commands
mod Run
pub mod Laws
pub mod Release
unfoldable pub use Commands.*
unfoldable pub use Run.*
