-- ===== src/Protocol.antt =====
-- scripts/experiment/validate_seven_qos_protocol.py and
-- scripts/experiment/generate_seven_qos_deterministic_protocol.py: the draft of the Seven-QoS
-- protocol.
mod Document
mod Cells
mod Cases
mod Expand
pub mod Paths
pub mod Families
pub mod Budget
pub mod Expansion
unfoldable pub use Document.*
unfoldable pub use Cells.*
unfoldable pub use Cases.*
unfoldable pub use Expand.*
