-- ===== src/Recovery.antt =====
-- scripts/experiment/p4_reset_recovery.py: resets of a board until its network is back.
mod Reset
mod Command
pub mod Laws
pub mod Clock
pub mod Qualified
unfoldable pub use Reset.*
unfoldable pub use Command.*
