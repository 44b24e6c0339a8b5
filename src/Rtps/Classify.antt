-- ===== src/Rtps/Classify.antt =====
-- `classify_row`: which row of the capture is an event, and what the event holds.
mod Rows
pub mod Source
unfoldable pub use Rows.*
