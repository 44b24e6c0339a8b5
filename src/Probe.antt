-- ===== src/Probe.antt =====
-- scripts/experiment/telemetry_control_probe.py: the record of a processor-load probe.
mod Record
pub mod Laws
unfoldable pub use Record.*
