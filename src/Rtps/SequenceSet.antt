-- ===== src/Rtps/SequenceSet.antt =====
-- `decode_sequence_set`: the numbers that an ACKNACK asks for.
mod Bits
mod Bytes
pub mod Laws
unfoldable pub use Bits.*
