-- ===== src/Rtps/SequenceSet/Laws.antt =====
-- What `decode_sequence_set` returns, without its loop and its `break`.
use mathlib.Core.Option.{some-injective}
use qos_extended_mros2_esp.Base.{◌>>=◌, >>=-eq-some}
use qos_extended_mros2_esp.Base.Text.{remove_char, nonempty}
use qos_extended_mros2_esp.Base.Number.{from_hex, from_hex-All, IsByte}
use qos_extended_mros2_esp.Rtps.SequenceSet.Bytes.{requested_bit, bit_is_set-requested_bit}
use qos_extended_mros2_esp.Base.{
  ℕ, zero, suc, ◌+◌, ◌*◌, ◌/◌, ◌≡◌, refl, ap, String, Bool, true, false, ◌&&◌, Option, some, List,
  [], ◌∷◌, map, length, take, drop, filter, range_from, leb, ltb, eqb, if◌then◌else◌, arith, All,
  All-mono, subst, Bool-cases, inl, inr,
}
use qos_extended_mros2_esp.Base.Int.{ℤ, pos, ◌+ℤ◌, ◌≤ℤ◌, pos_part, int_laws}
use qos_extended_mros2_esp.Rtps.SequenceSet.Bits.{
  word_bytes, bit_is_set, missing_from, decode_sequence_set,
}

-- The bit lies in a whole word, and stands in its byte.
pub is_requested : List ℕ → ℕ → Bool
is_requested raw i = leb (i / 32 * 4 + 4) (length raw) && eqb (requested_bit raw i) 1

length-take-drop :
    (k n : ℕ) (raw : List ℕ)
    → ltb (length (take n (drop k raw))) n ≡ (if leb (k + n) (length raw) then false else ltb 0 n)
length-take-drop zero zero raw = ground arith
length-take-drop zero (suc n) [] = ground arith
length-take-drop zero (suc n) (x ∷ raw) = ground (arith, length-take-drop zero n raw)
length-take-drop (suc k) zero [] = ground arith
length-take-drop (suc k) (suc n) [] = ground arith
length-take-drop (suc k) n (x ∷ raw) = ground (arith, length-take-drop k n raw)

-- The test of the `break`.
is_past :
    (raw : List ℕ) (i : ℕ)
    → ltb (length (word_bytes raw i)) 4
      ≡ (if leb (i / 32 * 4 + 4) (length raw) then false else true)
unfolding word_bytes
is_past raw i = length-take-drop (i / 32 * 4) 4 raw

-- Behind the last whole word nothing is requested.
filter-is_requested_past :
    (raw : List ℕ) (i rounds : ℕ)
    → leb (i / 32 * 4 + 4) (length raw) ≡ false
    → filter (is_requested raw) (range_from i rounds) ≡ []
unfolding is_requested
filter-is_requested_past raw i zero h = refl
filter-is_requested_past raw i (suc rounds) h =
    rw h (filter-is_requested_past raw (suc i) rounds (ground arith))

past_suc :
    (raw : List ℕ) (i : ℕ)
    → leb (i / 32 * 4 + 4) (length raw) ≡ false
    → leb (suc i / 32 * 4 + 4) (length raw) ≡ false
past_suc raw i h = ground arith

-- The loop with its `break` lists the base plus each index that is requested: reading stops at
-- the first missing word, and loses nothing by it.
pub missing_from-eq-filter :
    (base : ℤ) (raw : List ℕ) (i rounds : ℕ)
    → All IsByte raw
    → missing_from base raw i rounds
      ≡ map (λ (k : ℕ). base +ℤ pos k) (filter (is_requested raw) (range_from i rounds))
unfolding missing_from is_requested
missing_from-eq-filter base raw i zero bytes = refl
missing_from-eq-filter base raw i (suc rounds) bytes =
    elim (Bool-cases (leb (i / 32 * 4 + 4) (length raw))) [
      | inl whole ↦
          rw
            (
              is_past raw i,
              whole,
              missing_from-eq-filter base raw (suc i) rounds bytes,
              bit_is_set-requested_bit raw i bytes,
            )
            (elim (Bool-cases (eqb (requested_bit raw i) 1)) [
              | inl one ↦ rw one
              | inr off ↦ rw off
            ])
      | inr past ↦
          rw (is_past raw i, past)
            (rw (filter-is_requested_past raw (suc i) rounds (past_suc raw i past)))
    ]

-- The numbers lie in the window `[base + i, base + i + rounds)`, in increasing order.
abbrev pub InWindow : ℤ → ℤ → ℤ → Type 0
InWindow low high s = (low ≤ℤ s) × (s +ℤ pos 1 ≤ℤ high)

abbrev pub IsIncreasing : List ℤ → Type 0
IsIncreasing [] = Unit
IsIncreasing (s ∷ ss) = All (λ t. s +ℤ pos 1 ≤ℤ t) ss × IsIncreasing ss

window_of_suc :
    (base s high : ℤ) (i : ℕ)
    → InWindow (base +ℤ pos (suc i)) high s
    → (InWindow (base +ℤ pos i) high s) × (base +ℤ pos i +ℤ pos 1 ≤ℤ s)
window_of_suc base s high i (low, below) = (omega int_laws, omega int_laws)

missing_from_window :
    (base : ℤ) (raw : List ℕ) (i rounds : ℕ)
    → All (InWindow (base +ℤ pos i) (base +ℤ pos (i + rounds))) (missing_from base raw i rounds)
unfolding missing_from
missing_from_window base raw i zero = tt
missing_from_window base raw i (suc rounds) =
    let high = base +ℤ pos (i + suc rounds) in
    let e : base +ℤ pos (suc i + rounds) ≡ high = ap (λ k. base +ℤ pos k) (omega arith) in
    let later : All (InWindow (base +ℤ pos (suc i)) high) (missing_from base raw (suc i) rounds) =
      subst (λ h. All (InWindow (base +ℤ pos (suc i)) h) (missing_from base raw (suc i) rounds)) e
        (missing_from_window base raw (suc i) rounds) in
    let rest : All (InWindow (base +ℤ pos i) high) (missing_from base raw (suc i) rounds) =
      All-mono _ (λ s w. (window_of_suc base s high i w).0) later in
    elim (Bool-cases (ltb (length (word_bytes raw i)) 4)) [
      | inl past ↦ rw past tt
      | inr whole ↦ elim (Bool-cases (bit_is_set raw i)) [
        | inl one ↦ rw (whole, one) ((omega int_laws, omega int_laws), rest)
        | inr off ↦ rw (whole, off) rest
      ]
    ]

missing_from-IsIncreasing :
    (base : ℤ) (raw : List ℕ) (i rounds : ℕ) → IsIncreasing (missing_from base raw i rounds)
unfolding missing_from
missing_from-IsIncreasing base raw i zero = tt
missing_from-IsIncreasing base raw i (suc rounds) =
    let rest = missing_from-IsIncreasing base raw (suc i) rounds in
    elim (Bool-cases (ltb (length (word_bytes raw i)) 4)) [
      | inl past ↦ rw past tt
      | inr whole ↦ elim (Bool-cases (bit_is_set raw i)) [
        | inl one ↦
            rw (whole, one)
              (
                All-mono _ (λ s w. (window_of_suc base s _ i w).1)
                    (missing_from_window base raw (suc i) rounds),
                rest,
              )
        | inr off ↦ rw (whole, off) rest
      ]
    ]

-- The bytes that the bitmap's text stands for.
abbrev pub bytes_of : String → Option (List ℕ)
bytes_of bitmap = from_hex (remove_char b':' bitmap)

-- A set with a positive bit count and a bitmap that is not blank decodes to exactly the numbers
-- `base + i`, in order, where place `i` below the count lies in a whole word of four bytes and is
-- set there: the bytes of a word are counted from the last, the bits of a byte from the most
-- significant one. Stopping at the first missing word loses none.
pub decode_sequence_set-eq-filter :
    (base : ℤ) (k : ℕ) (bitmap : String) (raw : List ℕ)
    → nonempty bitmap ≡ true
    → bytes_of bitmap ≡ some raw
    → decode_sequence_set (some base) (pos (suc k)) bitmap
      ≡ some (map (λ (i : ℕ). base +ℤ pos i) (filter (is_requested raw) (range_from 0 (suc k))))
unfolding decode_sequence_set
decode_sequence_set-eq-filter base k bitmap raw filled bytes =
    rw (filled, bytes)
      (ap some (
        missing_from-eq-filter base raw 0 (suc k)
          (from_hex-All (remove_char b':' bitmap) raw bytes)))

abbrev IsWindow : ℤ → ℤ → List ℤ → Type 0
IsWindow base num_bits seqs =
    All (InWindow base (base +ℤ pos (pos_part num_bits))) seqs × IsIncreasing seqs

missing_from-IsWindow :
    (base num_bits : ℤ) (raw : List ℕ)
    → IsWindow base num_bits (missing_from base raw 0 (pos_part num_bits))
missing_from-IsWindow base num_bits raw = (
  All-mono _ (λ s w. (omega int_laws, omega int_laws))
      (missing_from_window base raw 0 (pos_part num_bits)),
  missing_from-IsIncreasing base raw 0 (pos_part num_bits),
)

read-IsWindow :
    (base num_bits : ℤ) (bitmap : String) {seqs : List ℤ}
    → (if nonempty bitmap
        then (bytes_of bitmap >>= λ raw. some (missing_from base raw 0 (pos_part num_bits)))
        else some [])
      ≡ some seqs
    → IsWindow base num_bits seqs
read-IsWindow base num_bits bitmap {seqs} h = elim (Bool-cases (nonempty bitmap)) [
  | inl filled ↦
      let (raw, _, e) = >>=-eq-some (bytes_of bitmap) _ (rw filled at h) in
      subst (IsWindow base num_bits) (some-injective _ _ e)
        (missing_from-IsWindow base num_bits raw)
  | inr blank ↦ subst (IsWindow base num_bits) (some-injective _ _ (rw blank at h)) (tt, tt)
]

-- Whatever the text holds, a set that decodes asks for numbers from its base on, below the base
-- plus the bit count, each greater than the one before.
pub decode_sequence_set_window :
    (base num_bits : ℤ) (bitmap : String) {seqs : List ℤ}
    → decode_sequence_set (some base) num_bits bitmap ≡ some seqs
    → All (InWindow base (base +ℤ pos (pos_part num_bits))) seqs × IsIncreasing seqs
unfolding decode_sequence_set
decode_sequence_set_window base (ℤ.pos zero) bitmap h =
    subst (IsWindow base (pos 0)) (some-injective _ _ h) (tt, tt)
decode_sequence_set_window base (ℤ.pos (suc n)) bitmap h = read-IsWindow base (pos (suc n)) bitmap h
decode_sequence_set_window base (ℤ.negsuc n) bitmap h = read-IsWindow base (ℤ.negsuc n) bitmap h
