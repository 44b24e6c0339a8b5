-- ===== src/Compare.antt =====
-- scripts/experiment/three_system_common.py: the serial log of one run, and the
-- schedule of the visits.
mod Serial
mod Run
mod Schedule
pub mod Laws
pub mod Accepted
pub mod Balance
pub mod Blocks
pub mod Generated
unfoldable pub use Serial.*
unfoldable pub use Run.*
unfoldable pub use Schedule.*
