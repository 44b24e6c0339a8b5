-- ===== src/Base/Number.antt =====
-- `int(text)` and `int(text, 0)` on ASCII digits, and `float(text)` on texts in fixed-point
-- notation, which is how `tshark` prints a time. A `ValueError` is `none`.
use qos_extended_mros2_esp.Base.Names.{
  ℕ, zero, suc, ◌+◌, ◌-◌, ◌*◌, ◌^◌, ◌<◌, subst, Bool-cases, inl, inr, arith, >>=-eq-some, ◌/◌, ◌%◌,
  ◌≡◌, refl, Bool, true, false, ◌&&◌, ◌||◌, Option, none, some, List, [], ◌∷◌, leb, ltb, eqb,
  if◌then◌else◌, ◌>>=◌, String,
}
use mathlib.Core.List.{reverse}
use mathlib.Core.Option.{some-injective}
use qos_extended_mros2_esp.Base.Lists.{All}
use qos_extended_mros2_esp.Base.Int.{ℤ, pos, sub_ℕ}
use qos_extended_mros2_esp.Base.Text.{codes, is_space}

-- The value of a digit in bases up to 36.
digit_value : ℕ → Option ℕ
digit_value c =
    if leb b'0' c && leb c b'9'
    then some (c - b'0')
    else if leb b'a' c && leb c b'z'
    then some (c - b'a' + 10)
    else if leb b'A' c && leb c b'Z'
    then some (c - b'A' + 10)
    else none

-- Digits, single underscores between them. The flag says that the last character was a digit.
digits : ℕ → Bool → ℕ → List ℕ → Option ℕ
unfolding digit_value
digits base last acc [] = if last then some acc else none
digits base last acc (c ∷ cs) = elim (eqb c b'_') [
  | true ↦ elim last [ true ↦ digits base false acc cs | false ↦ none ]
  | false ↦ elim (digit_value c) [
    | none ↦ none
    | some d ↦ elim (ltb d base) [ true ↦ digits base true (acc * base + d) cs | false ↦ none ]
  ]
]

strip_left : List ℕ → List ℕ
strip_left [] = []
strip_left (c ∷ cs) = if is_space c then strip_left cs else c ∷ cs

strip : List ℕ → List ℕ
unfolding strip_left
strip cs = reverse (strip_left (reverse (strip_left cs)))

negate : ℕ → ℤ
negate n = sub_ℕ 0 n

-- An optional sign, and the unsigned rest.
signed : (List ℕ → Option ℕ) → List ℕ → Option ℤ
unfolding negate
signed parse [] = none
signed parse (c ∷ cs) =
    if eqb c b'-'
    then (parse cs >>= λ n. some (negate n))
    else if eqb c b'+'
    then (parse cs >>= λ n. some (pos n))
    else (parse (c ∷ cs) >>= λ n. some (pos n))

-- Behind a prefix such as `0x` one underscore is allowed, and a digit is required.
prefixed : ℕ → List ℕ → Option ℕ
unfolding digits
prefixed base [] = none
prefixed base (c ∷ cs) = digits base true 0 (c ∷ cs)

-- In base 0 a decimal number has no leading zero, unless it is zero.
decimal_literal : List ℕ → Option ℕ
unfolding digits
decimal_literal [] = none
decimal_literal (c ∷ cs) =
    digits 10 false 0 (c ∷ cs) >>= λ n. if eqb c b'0' && ltb 0 n then none else some n

literal : List ℕ → Option ℕ
unfolding decimal_literal prefixed
literal [] = none
literal (c ∷ []) = decimal_literal (c ∷ [])
literal (c ∷ x ∷ cs) =
    if eqb c b'0' && (eqb x b'x' || eqb x b'X')
    then prefixed 16 cs
    else if eqb c b'0' && (eqb x b'o' || eqb x b'O')
    then prefixed 8 cs
    else if eqb c b'0' && (eqb x b'b' || eqb x b'B')
    then prefixed 2 cs
    else decimal_literal (c ∷ x ∷ cs)

-- `int(text)`
unfoldable pub int_base_10 : String → Option ℤ
unfolding signed digits strip
int_base_10 s = signed (digits 10 false 0) (strip (codes s))

-- `int(text, 0)`
unfoldable pub int_base_0 : String → Option ℤ
unfolding signed literal strip
int_base_0 s = signed literal (strip (codes s))

-- The digits behind the point, as billionths. More than nine digits are not read.
billionths : ℕ → ℕ → List ℕ → Option ℕ
billionths places acc [] = some (acc * 10 ^ places)
billionths zero acc (c ∷ cs) = none
billionths (suc places) acc (c ∷ cs) = elim (leb b'0' c && leb c b'9') [
  | true ↦ billionths places (acc * 10 + (c - b'0')) cs
  | false ↦ none
]

-- The digits before the point, and then those behind it. The flag says that a digit was read.
fixed_point : Bool → ℕ → List ℕ → Option ℕ
unfolding billionths
fixed_point seen acc [] = if seen then some (acc * 10 ^ 9) else none
fixed_point seen acc (c ∷ cs) = elim (eqb c b'.') [
  | true ↦ elim (seen || (elim cs [ [] ↦ false | d ∷ ds ↦ true ])) [
    | true ↦ billionths 9 0 cs >>= λ frac. some (acc * 10 ^ 9 + frac)
    | false ↦ none
  ]
  | false ↦ elim (leb b'0' c && leb c b'9') [
    | true ↦ fixed_point true (acc * 10 + (c - b'0')) cs
    | false ↦ none
  ]
]

-- `float(text)`, in billionths.
unfoldable pub float_nanos : String → Option ℕ
unfolding fixed_point strip
float_nanos s = fixed_point false 0 (strip (codes s))

-- The hexadecimal digits of `bytes.fromhex`, two to a byte. White space may stand between bytes.
hex_bytes : List ℕ → Option (List ℕ)
unfolding digit_value
hex_bytes [] = some []
hex_bytes (c ∷ []) = if (leb 9 c && leb c 13) || eqb c 32 then some [] else none
hex_bytes (c ∷ d ∷ cs) = elim ((leb 9 c && leb c 13) || eqb c 32) [
  | true ↦ hex_bytes (d ∷ cs)
  | false ↦ digit_value c >>= λ hi. digit_value d >>= λ lo. elim (ltb hi 16 && ltb lo 16) [
    | true ↦ hex_bytes cs >>= λ rest. some ((hi * 16 + lo) ∷ rest)
    | false ↦ none
  ]
]

-- `bytes.fromhex(text)`
unfoldable pub from_hex : String → Option (List ℕ)
unfolding hex_bytes
from_hex s = hex_bytes (codes s)

abbrev pub IsByte : ℕ → Type 0
IsByte b = b < 256

hex_bytes-All : (cs : List ℕ) (raw : List ℕ) → hex_bytes cs ≡ some raw → All IsByte raw
unfolding hex_bytes
hex_bytes-All [] raw h = subst (All IsByte) (some-injective _ _ h) tt
hex_bytes-All (c ∷ []) raw h = elim (Bool-cases ((leb 9 c && leb c 13) || eqb c 32)) [
  | inl space ↦ subst (All IsByte) (some-injective _ _ (rw space at h)) tt
  | inr other ↦ absurd (ground (arith, h, other))
]
hex_bytes-All (c ∷ d ∷ cs) raw h = elim (Bool-cases ((leb 9 c && leb c 13) || eqb c 32)) [
  | inl space ↦ hex_bytes-All (d ∷ cs) raw (rw (hex_bytes, space) at h)
  | inr other ↦
      let (hi, _, h1) = >>=-eq-some (digit_value c) _ (rw (hex_bytes, other) at h) in
      let (lo, _, h2) = >>=-eq-some (digit_value d) _ h1 in
      elim (Bool-cases (ltb hi 16 && ltb lo 16)) [
        | inl small ↦
            let (rest, tail, h3) = >>=-eq-some (hex_bytes cs) _ (rw small at h2) in
            subst (All IsByte) (some-injective _ _ h3) (ground arith, hex_bytes-All cs rest tail)
        | inr large ↦ absurd (ground (arith, rw large at h2))
      ]
]

pub from_hex-All : (s : String) (raw : List ℕ) → from_hex s ≡ some raw → All IsByte raw
unfolding from_hex
from_hex-All s raw h = hex_bytes-All (codes s) raw h

-- The codes of the decimal digits of a number. Fuel beyond the number is enough.
digits_of : ℕ → ℕ → List ℕ → List ℕ
digits_of zero n later = later
digits_of (suc fuel) n later =
    let more = digits_of fuel (n / 10) ((b'0' + n % 10) ∷ later) in
    if ltb n 10 then (b'0' + n) ∷ later else more

-- More fuel changes nothing.
digits_of_more :
    (fuel n : ℕ) (later : List ℕ) → n < fuel → digits_of (suc fuel) n later ≡ digits_of fuel n later
unfolding digits_of
digits_of_more zero n later h = absurd (omega arith)
digits_of_more (suc fuel) n later h =
    ground (arith, digits_of_more fuel (n / 10) ((b'0' + n % 10) ∷ later))

-- `str(n)`, as code points
unfoldable pub decimal : ℤ → List ℕ
unfolding digits_of
decimal (pos n) = digits_of (suc n) n []
decimal (ℤ.negsuc n) = b'-' ∷ digits_of (suc (suc n)) (suc n) []

number_tests :
    (int_base_0 " 0x1f " ≡ some (pos 31))
    × (int_base_0 "007" ≡ none)
    × (int_base_0 "-1_0" ≡ some (ℤ.negsuc 9))
    × (int_base_10 "007" ≡ some (pos 7))
    × (int_base_10 "0x7" ≡ none)
    × (float_nanos "12.5" ≡ some 12500000000)
    × (float_nanos "" ≡ none)
    × (decimal (ℤ.negsuc 119) ≡ codes "-120")
    × (from_hex "80 0000" ≡ some (128 ∷ 0 ∷ 0 ∷ []))
unfolding int_base_0 int_base_10 float_nanos from_hex decimal
number_tests = (refl, refl, refl, refl, refl, refl, refl, refl, refl)
