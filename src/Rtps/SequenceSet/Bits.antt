-- ===== src/Rtps/SequenceSet/Bits.antt =====
-- `decode_sequence_set`. Word bytes are little endian; bit 0 is the highest of its word.
use qos_extended_mros2_esp.Base.{
  ℕ, zero, suc, ◌+◌, ◌-◌, ◌*◌, ◌/◌, ◌%◌, ◌^◌, String, Bool, Option, none, some, List, [], ◌∷◌,
  length, take, drop, ltb, eqb, if◌then◌else◌, ◌>>=◌,
}
use qos_extended_mros2_esp.Base.Int.{ℤ, pos, ◌+ℤ◌, pos_part}
use qos_extended_mros2_esp.Base.Text.{remove_char, nonempty}
use qos_extended_mros2_esp.Base.Number.{from_hex}

-- `int.from_bytes(…, byteorder="little")`
unfoldable pub from_little_endian : List ℕ → ℕ
from_little_endian [] = 0
from_little_endian (b ∷ bs) = b + 256 * from_little_endian bs

-- `raw[word_offset:word_offset + 4]` for the word of a bit
unfoldable pub word_bytes : List ℕ → ℕ → List ℕ
word_bytes raw bit_index = take 4 (drop (bit_index / 32 * 4) raw)

-- `word & mask`, as a truth value
unfoldable pub bit_is_set : List ℕ → ℕ → Bool
unfolding word_bytes from_little_endian
bit_is_set raw bit_index =
    eqb (from_little_endian (word_bytes raw bit_index) / 2 ^ (31 - bit_index % 32) % 2) 1

-- The loop, from a bit on, with the number of rounds left.
unfoldable pub missing_from : ℤ → List ℕ → ℕ → ℕ → List ℤ
missing_from base raw bit_index zero = []
missing_from base raw bit_index (suc rounds) =
    let rest = missing_from base raw (suc bit_index) rounds in
    if ltb (length (word_bytes raw bit_index)) 4
    then []
    else if bit_is_set raw bit_index
    then (base +ℤ pos bit_index) ∷ rest
    else rest

-- `none` is the `ValueError` of `bytes.fromhex`.
unfoldable pub decode_sequence_set : Option ℤ → ℤ → String → Option (List ℤ)
unfolding from_hex remove_char
decode_sequence_set none num_bits bitmap = some []
decode_sequence_set (some base) num_bits bitmap = elim num_bits [
  | ℤ.pos zero ↦ some []
  | n ↦
      if nonempty bitmap
      then (from_hex (remove_char b':' bitmap) >>= λ raw.
          some (missing_from base raw 0 (pos_part n)))
      else some []
]
