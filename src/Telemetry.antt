-- ===== src/Telemetry.antt =====
-- scripts/experiment/validate_benchmark_telemetry_smoke.py: the serial log of a telemetry window.
mod Record
mod Crc
mod Contract
mod Raw
mod Parts
mod Log
pub mod Missing
pub mod Observable
pub mod Delivery
pub mod Samples
pub mod Checks
pub mod Window
unfoldable pub use Record.*
unfoldable pub use Crc.*
unfoldable pub use Contract.*
unfoldable pub use Raw.*
unfoldable pub use Parts.*
unfoldable pub use Log.*
