-- ===== src/Rtps/Analyze.antt =====
-- `tshark_rows` and `analyze`: from the lines that `tshark` prints to the evidence of a capture.
mod Pipeline
pub mod Partition
pub mod Laws
unfoldable pub use Pipeline.*
