-- ===== src/Endpoint.antt =====
-- scripts/experiment/validate_qos_compatibility_host_probe.py and
-- scripts/experiment/validate_qos_compatibility_board_probe.py: the two ends of a compatibility case.
mod Records
mod Host
mod Board
pub mod Agreement
unfoldable pub use Records.*
unfoldable pub use Host.*
unfoldable pub use Board.*
