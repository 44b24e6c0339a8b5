-- ===== src/Endpoint/Host.antt =====
-- `validate` of the host's probe.
use qos_extended_mros2_esp.Base.{
  String, Bool, not, ◌&&◌, ◌||◌, List, [], ◌∷◌, any, ◌==◌, string_eq, option_eq, if◌then◌else◌,
  some,
}
use qos_extended_mros2_esp.Base.Dict.{lookup}
use qos_extended_mros2_esp.Base.Fields.{Fields, check_fields}
use qos_extended_mros2_esp.Base.Int.{ℤ, pos, ltb_ℤ, leb_ℤ, int_eq}
use qos_extended_mros2_esp.Base.Result.{Result, ok, ◌>>=◌, ◌>>◌, raise_if}
use qos_extended_mros2_esp.Base.Text.{starts_with}
use qos_extended_mros2_esp.Endpoint.Records.{
  EndpointError, error_record, field_differs, wrong_status, wrong_match, wrong_maximum, unsent,
  nothing_received, unexpected_traffic, negative_counter, Role, role_text, is_publisher, bit_text,
  bit, endpoint_fields, with_prefix, the_only_line, counter,
}

pub record HostSummary : Type 0 where
  pub actual_match : ℤ
  pub max_match_count : ℤ
  pub tx : ℤ
  pub rx : ℤ

abbrev host_fields : String → Role → Bool → List (String × String)
host_fields case_id role expected =
    ("schema", "1")
    ∷ ("case_id", case_id)
    ∷ ("role", role_text role)
    ∷ ("expected_match", bit_text expected)
    ∷ []

unfoldable pub read_host : Fields → Result EndpointError HostSummary
read_host final = do
  actual ← counter final "actual_match"
  maximum ← counter final "max_match_count"
  tx ← counter final "tx"
  rx ← counter final "rx"
  ok record { actual_match = actual; max_match_count = maximum; tx = tx; rx = rx }

-- The tests of the counters.
unfoldable pub check_host : Role → Bool → ℤ → HostSummary → Result EndpointError (Unit {0})
check_host role expected messages host = do
  raise_if (not (host.actual_match == bit expected)) wrong_match
  raise_if
      (if expected
        then not (ltb_ℤ (pos 0) host.max_match_count)
        else ltb_ℤ (pos 0) host.max_match_count)
      wrong_maximum
  raise_if (is_publisher role && expected && not (host.tx == messages)) unsent
  raise_if (not (is_publisher role) && expected && leb_ℤ host.rx (pos 0)) nothing_received
  raise_if (not expected && (not (host.tx == pos 0) || not (host.rx == pos 0))) unexpected_traffic
  raise_if (ltb_ℤ host.tx (pos 0) || ltb_ℤ host.rx (pos 0)) negative_counter

-- The configuration and the final record, with the fields that are expected.
unfoldable pub host_records :
    List String → String → Role → Bool → Result EndpointError (Fields × Fields)
host_records lines case_id role expected = do
  raise_if (any (λ line. starts_with line "QOS_HOST_ERROR ") lines) error_record
  config_line ← the_only_line (with_prefix "QOS_HOST_CONFIG" lines)
  final_line ← the_only_line (with_prefix "QOS_HOST_FINAL" lines)
  config ← endpoint_fields config_line "QOS_HOST_CONFIG"
  final ← endpoint_fields final_line "QOS_HOST_FINAL"
  check_fields field_differs config (host_fields case_id role expected)
  check_fields field_differs final (host_fields case_id role expected)
  raise_if (not (lookup "status" final == some "PASS")) wrong_status
  ok (config, final)

unfoldable pub validate_host : List String → String → Role → Bool → Result EndpointError HostSummary
validate_host lines case_id role expected = do
  records ← host_records lines case_id role expected
  host ← read_host records.1
  messages ← counter records.0 "message_count"
  check_host role expected messages host
  ok host
