-- ===== src/Endpoint/Records.antt =====
-- The records of both probes.
use qos_extended_mros2_esp.Base.{◌<>◌, String, Bool, true, false, not, List, [], ◌∷◌, filter, drop}
use qos_extended_mros2_esp.Base.Fields.{Fields, fields_from, integer_or_minus_one}
use qos_extended_mros2_esp.Base.Int.{ℤ, pos}
use qos_extended_mros2_esp.Base.Result.{Result, ok, err, ◌>>◌, raise_if}
use qos_extended_mros2_esp.Base.Text.{words, starts_with}

-- One constructor for each `raise`, and one for `int`.
pub data EndpointError : Type 0 where
  crashed error_record record_count wrong_prefix malformed duplicate : EndpointError
  field_differs wrong_status bad_integer wrong_match wrong_maximum : EndpointError
  unsent nothing_received unexpected_traffic negative_counter : EndpointError

-- The choices of `--role`.
pub data Role : Type 0 where
  publisher subscriber : Role

abbrev pub role_text : Role → String
role_text publisher = "publisher"
role_text subscriber = "subscriber"

abbrev pub is_publisher : Role → Bool
is_publisher publisher = true
is_publisher subscriber = false

-- `"1" if expected_match else "0"`, and `int(expected_match)`.
abbrev pub bit_text : Bool → String
bit_text true = "1"
bit_text false = "0"

abbrev pub bit : Bool → ℤ
bit true = pos 1
bit false = pos 0

unfoldable pub endpoint_fields : String → String → Result EndpointError Fields
endpoint_fields line prefix =
    raise_if (not (starts_with line (prefix <> " "))) wrong_prefix
    >> fields_from malformed duplicate [] (drop 1 (words line))

-- The lines with a prefix, and the one line, if there is one.
abbrev pub with_prefix : String → List String → List String
with_prefix prefix lines = filter (λ line. starts_with line (prefix <> " ")) lines

unfoldable pub the_only_line : List String → Result EndpointError String
the_only_line (line ∷ []) = ok line
the_only_line lines = err record_count

-- `int(fields.get(key, "-1"))`
abbrev pub counter : Fields → String → Result EndpointError ℤ
counter fields key = integer_or_minus_one bad_integer fields key
