-- ===== src/Base/Fields.antt =====
-- The `key=value` records that boards and probes print, as the scripts read and compare them.
use Prim.Native.String.{char_at}
use qos_extended_mros2_esp.Base.Names.{
  ℕ, ◌-◌, ◌≡◌, refl, String, none, some, List, [], ◌∷◌, arith, Bool-cases, inl, inr, if◌then◌else◌,
}
use qos_extended_mros2_esp.Base.Equality.{◌==◌, string_eq, option_eq}
use qos_extended_mros2_esp.Base.Lists.{All}
use qos_extended_mros2_esp.Base.Dict.{Dict, lookup, insert}
use qos_extended_mros2_esp.Base.Int.{ℤ}
use qos_extended_mros2_esp.Base.Number.{int_base_0, int_base_10, decimal}
use qos_extended_mros2_esp.Base.Result.{Result, ok, err}
use qos_extended_mros2_esp.Base.Text.{partition}

abbrev pub Fields : Type 0
Fields = Dict String String

-- The text of code points between `-` and `9`.
abbrev text_of : List ℕ → String
text_of [] = String.[]
text_of (c ∷ cs) = String.◌∷◌ (char_at "-./0123456789" (c - 45)) (text_of cs)

-- `str(n)`
unfoldable pub decimal_text : ℤ → String
decimal_text n = text_of (decimal n)

module _ {ℓ} {E : Type ℓ} where
  -- The loop over the tokens of a record: an error for a token without `=`, one for a key that is
  -- there already.
  unfoldable pub fields_from : E → E → Fields → List String → Result E Fields
  fields_from malformed duplicate fields [] = ok fields
  fields_from malformed duplicate fields (token ∷ tokens) = elim (partition b'=' token) [
    | none ↦ err malformed
    | some (key, value) ↦ elim (lookup key fields) [
      | some old ↦ err duplicate
      | none ↦ fields_from malformed duplicate (insert key value fields) tokens
    ]
  ]

  -- `if actual.get(key) != expected: raise ...`, for each pair.
  unfoldable pub check_fields : E → Fields → List (String × String) → Result E (Unit {0})
  check_fields mismatch fields [] = ok tt
  check_fields mismatch fields ((key, expected) ∷ more) =
      let rest = check_fields mismatch fields more in
      if lookup key fields == some expected then rest else err mismatch

  -- `int(fields[key], 0)`, with an error for a missing key and one for a text that is no integer.
  unfoldable pub integer_in : E → E → Fields → String → Result E ℤ
  integer_in missing bad fields key = elim (lookup key fields) [
    | none ↦ err missing
    | some text ↦ elim (int_base_0 text) [ none ↦ err bad | some n ↦ ok n ]
  ]

  -- `int(fields.get(key, "-1"))`
  unfoldable pub integer_or_minus_one : E → Fields → String → Result E ℤ
  integer_or_minus_one bad fields key = elim (lookup key fields) [
    | none ↦ ok (ℤ.negsuc 0)
    | some text ↦ elim (int_base_10 text) [ none ↦ err bad | some n ↦ ok n ]
  ]

-- Every expected pair is in the record.
abbrev pub Holds : Fields → List (String × String) → Type 0
Holds fields pairs = All (λ (pair : String × String). lookup pair.0 fields ≡ some pair.1) pairs

pub check_fields-Holds {ℓ} :
    {E : Type ℓ} (mismatch : E) (fields : Fields) (pairs : List (String × String)) (u : Unit {0})
    → check_fields mismatch fields pairs ≡ ok u
    → Holds fields pairs
unfolding check_fields
check_fields-Holds mismatch fields [] u h = tt
check_fields-Holds mismatch fields ((key, expected) ∷ more) u h =
    elim (Bool-cases (lookup key fields == some expected)) [
      | inl same ↦ (ground (arith, same), check_fields-Holds mismatch fields more u (rw same at h))
      | inr other ↦ absurd (ground (arith, rw other at h))
    ]

decimal_text_tests : (decimal_text (ℤ.negsuc 119) ≡ "-120") × (decimal_text (ℤ.pos 64) ≡ "64")
unfolding decimal_text decimal
decimal_text_tests = (refl, refl)
