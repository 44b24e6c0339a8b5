-- ===== src/Seal.antt =====
-- scripts/experiment/seal_result_tree.py and verify_result_tree_seal.py: the release seal of a
-- tree of results.
mod Release
pub mod Verify
pub mod Paths
pub mod Sound
pub mod RoundTrip
unfoldable pub use Release.*
