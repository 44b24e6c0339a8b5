-- ===== src/Rtps/Condition.antt =====
-- `condition_from_path` and `condition_summary`: the campaign condition of one capture.
mod Naming
mod Totals
unfoldable pub use Naming.*
unfoldable pub use Totals.*
