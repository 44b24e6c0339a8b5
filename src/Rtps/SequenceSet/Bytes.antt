-- ===== src/Rtps/SequenceSet/Bytes.antt =====
-- The bit that `word & mask` tests, found in one byte of the bitmap.
use native.Mathlib.Nat.{div-div-eq-div-mul, pow-succ'}
use qos_extended_mros2_esp.Base.{
  ℕ, zero, suc, ◌+◌, ◌-◌, ◌*◌, ◌/◌, ◌%◌, ◌^◌, ◌<◌, ◌≡◌, refl, sym, ◌∙◌, ap, Option, none, some,
  List, [], ◌∷◌, get_elem?, take, drop, eqb, arith, All,
}
use qos_extended_mros2_esp.Base.Number.{IsByte}
use qos_extended_mros2_esp.Rtps.SequenceSet.Bits.{from_little_endian, word_bytes, bit_is_set}

-- Bit `j` of a byte, 0 being the least significant; a byte that is not there has none.
abbrev pub byte_bit : Option ℕ → ℕ → ℕ
byte_bit none j = 0
byte_bit (some b) j = b / 2 ^ j % 2

low_bit : (b y j : ℕ) → j < 8 → (b + 256 * y) / 2 ^ j % 2 ≡ b / 2 ^ j % 2
low_bit b y zero h = omega arith
low_bit b y (suc zero) h = omega arith
low_bit b y (suc (suc zero)) h = omega arith
low_bit b y (suc (suc (suc zero))) h = omega arith
low_bit b y (suc (suc (suc (suc zero)))) h = omega arith
low_bit b y (suc (suc (suc (suc (suc zero))))) h = omega arith
low_bit b y (suc (suc (suc (suc (suc (suc zero)))))) h = omega arith
low_bit b y (suc (suc (suc (suc (suc (suc (suc zero))))))) h = omega arith
low_bit b y (suc (suc (suc (suc (suc (suc (suc (suc j)))))))) h = absurd (omega arith)

two_pow_byte : (m : ℕ) → 2 ^ (8 + m) ≡ 256 * 2 ^ m
two_pow_byte m =
    let place : 8 + m ≡ suc (suc (suc (suc (suc (suc (suc (suc m))))))) = omega arith in
    rw place (
      omega (
        arith,
        pow-succ' 2 m,
        pow-succ' 2 (suc m),
        pow-succ' 2 (suc (suc m)),
        pow-succ' 2 (suc (suc (suc m))),
        pow-succ' 2 (suc (suc (suc (suc m)))),
        pow-succ' 2 (suc (suc (suc (suc (suc m))))),
        pow-succ' 2 (suc (suc (suc (suc (suc (suc m)))))),
        pow-succ' 2 (suc (suc (suc (suc (suc (suc (suc m))))))),
      ))

high_bit : (b y m : ℕ) → IsByte b → (b + 256 * y) / 2 ^ (8 + m) ≡ y / 2 ^ m
high_bit b y m h =
    rw (two_pow_byte m, sym (div-div-eq-div-mul (b + 256 * y) 256 (2 ^ m)))
      (ap (λ n. n / 2 ^ m) (omega arith))

-- Bit `j` of byte `q`, in the number that the bytes stand for.
little_endian_bit :
    (bytes : List ℕ) (q j : ℕ)
    → All IsByte bytes
    → j < 8
    → from_little_endian bytes / 2 ^ (q * 8 + j) % 2 ≡ byte_bit (get_elem? bytes q) j
unfolding from_little_endian
little_endian_bit [] q j h lt = omega arith
little_endian_bit (b ∷ bytes) zero j h lt =
    let place : zero * 8 + j ≡ j = omega arith in
    rw place (low_bit b (from_little_endian bytes) j lt)
little_endian_bit (b ∷ bytes) (suc q) j (byte, h) lt =
    let place : suc q * 8 + j ≡ 8 + (q * 8 + j) = omega arith in
    rw (place, high_bit b (from_little_endian bytes) (q * 8 + j) byte)
      (little_endian_bit bytes q j h lt)

get_elem?-take : (n i : ℕ) (xs : List ℕ) → i < n → get_elem? (take n xs) i ≡ get_elem? xs i
get_elem?-take zero i xs h = absurd (omega arith)
get_elem?-take (suc n) i [] h = refl
get_elem?-take (suc n) zero (x ∷ xs) h = refl
get_elem?-take (suc n) (suc i) (x ∷ xs) h = get_elem?-take n i xs (omega arith)

get_elem?-drop : (n i : ℕ) (xs : List ℕ) → get_elem? (drop n xs) i ≡ get_elem? xs (n + i)
get_elem?-drop zero i xs = let same : zero + i ≡ i = omega arith in rw same refl
get_elem?-drop (suc n) i [] = refl
get_elem?-drop (suc n) i (x ∷ xs) =
    let next : suc n + i ≡ suc (n + i) = omega arith in rw next (get_elem?-drop n i xs)

All-take-drop : (n k : ℕ) (xs : List ℕ) → All IsByte xs → All IsByte (take k (drop n xs))
All-take-drop zero zero xs h = tt
All-take-drop zero (suc k) [] h = tt
All-take-drop zero (suc k) (x ∷ xs) (b, h) = (b, All-take-drop zero k xs h)
All-take-drop (suc n) zero [] h = tt
All-take-drop (suc n) (suc k) [] h = tt
All-take-drop (suc n) k (x ∷ xs) (b, h) = All-take-drop n k xs h

-- The bit that stands at place `i` of the bitmap: in words of four bytes the last byte comes
-- first, and in a byte the most significant bit.
pub requested_bit : List ℕ → ℕ → ℕ
requested_bit raw i = byte_bit (get_elem? raw (i / 32 * 4 + (3 - i % 32 / 8))) (7 - i % 8)

pub bit_is_set-requested_bit :
    (raw : List ℕ) (i : ℕ) → All IsByte raw → bit_is_set raw i ≡ eqb (requested_bit raw i) 1
unfolding bit_is_set word_bytes requested_bit
bit_is_set-requested_bit raw i h =
    let q = 3 - i % 32 / 8 in
    let j = 7 - i % 8 in
    let place : 31 - i % 32 ≡ q * 8 + j = omega arith in
    let word = take 4 (drop (i / 32 * 4) raw) in
    ap (λ n. eqb n 1)
      (ap (λ n. from_little_endian word / 2 ^ n % 2) place
        ∙ little_endian_bit word q j (All-take-drop (i / 32 * 4) 4 raw h) (omega arith)
        ∙ ap (λ b. byte_bit b j)
            (get_elem?-take 4 q (drop (i / 32 * 4) raw) (omega arith)
              ∙ get_elem?-drop (i / 32 * 4) q raw))
