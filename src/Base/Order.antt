-- ===== src/Base/Order.antt =====
-- `sorted`, and what it promises.
mod Sort
mod Laws
unfoldable pub use Sort.*
pub use Laws.*
