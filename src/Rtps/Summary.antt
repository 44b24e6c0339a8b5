-- ===== src/Rtps/Summary.antt =====
-- `summarize_flow`: what one run of one flow put on the wire.
mod Flows
pub mod Counts
unfoldable pub use Flows.*
