-- ===== src/Board.antt =====
-- scripts/experiment/validate_seven_qos_mechanism_board_log.py: the log of one board boot.
mod Marker
mod Cases
mod Log
pub mod Laws
pub mod Counted
pub mod Reconciled
unfoldable pub use Marker.*
unfoldable pub use Cases.*
unfoldable pub use Log.*
