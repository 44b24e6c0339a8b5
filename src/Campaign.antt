-- ===== src/Campaign.antt =====
-- scripts/experiment/run_seven_qos_mechanism_campaign.py: the attempts of a campaign, retried,
-- resumed and accepted.
mod Environment
mod Store
mod Rebuild
mod Endings
mod Run
pub mod Growth
pub mod Bounds
pub mod Accepted
pub mod Tally
pub mod Manifest
pub mod Settled
pub mod Attempts
pub mod Completion
unfoldable pub use Environment.*
unfoldable pub use Store.*
unfoldable pub use Rebuild.*
unfoldable pub use Endings.*
unfoldable pub use Run.*
