-- ===== src/Rtps/Runs.antt =====
-- `guid_run_map` and `assign_runs`: the boots of each side, numbered by their first DATA.
mod Numbering
pub mod Laws
pub mod Assignment
unfoldable pub use Numbering.*
