-- ===== src/Telemetry/Crc.antt =====
-- `zlib.crc32` of a text's bytes, one bit at a time.
use Prim.Native.Nat.{bit_xor}
use qos_extended_mros2_esp.Base.{
  ℕ, zero, suc, ◌/◌, ◌%◌, ◌≡◌, refl, List, [], ◌∷◌, ◌++◌, eqb, if◌then◌else◌,
}
use qos_extended_mros2_esp.Base.Text.{codes}

-- One byte, eight bits of it, the lowest first.
unfoldable pub crc_bits : ℕ → ℕ → ℕ
crc_bits zero crc = crc
crc_bits (suc bits) crc =
    crc_bits bits (if eqb (crc % 2) 0 then crc / 2 else bit_xor (crc / 2) 0xedb88320)

unfoldable pub crc_bytes : ℕ → List ℕ → ℕ
unfolding crc_bits
crc_bytes crc [] = crc
crc_bytes crc (byte ∷ bytes) = crc_bytes (crc_bits 8 (bit_xor crc byte)) bytes

-- A text is read piece by piece.
pub crc_bytes-append :
    (crc : ℕ) (xs ys : List ℕ) → crc_bytes crc (xs ++ ys) ≡ crc_bytes (crc_bytes crc xs) ys
unfolding crc_bytes
crc_bytes-append crc [] ys = refl
crc_bytes-append crc (x ∷ xs) ys = crc_bytes-append (crc_bits 8 (bit_xor crc x)) xs ys

unfoldable pub crc32 : List ℕ → ℕ
unfolding crc_bytes
crc32 bytes = bit_xor (crc_bytes 0xffffffff bytes) 0xffffffff

-- The check value of the CRC-32 of the catalogue.
crc32_check : crc32 (codes "123456789") ≡ 0xcbf43926
unfolding crc32
crc32_check = refl
