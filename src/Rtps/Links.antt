-- ===== src/Rtps/Links.antt =====
-- `reconstruct_nack_links`: each requested number with the DATA before and behind the request.
mod Requests
pub mod Laws
pub mod Earliest
unfoldable pub use Requests.*
