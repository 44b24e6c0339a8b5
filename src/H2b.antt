-- ===== src/H2b.antt =====
-- scripts/experiment/h2b_formal_common.py: the cells of the H2B campaign and its schedule.
mod Cells
mod Schedule
pub mod Laws
unfoldable pub use Cells.*
unfoldable pub use Schedule.*
