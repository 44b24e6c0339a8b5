-- ===== src/Tests/ContractRuns.antt =====
-- The delivery contract of a telemetry log: two of 200 messages are missing, in one run.
use native.Mathlib.Decide.{ℕ_discrete}
use qos_extended_mros2_esp.Base.{◌≡◌, refl, String, false, [], ◌∷◌, string_eq, option_eq, nat_eq}
use qos_extended_mros2_esp.Base.Fields.{Fields, decimal_text, fields_from, check_fields, integer_in}
use qos_extended_mros2_esp.Base.Int.{pos, ◌+ℤ◌, ◌-ℤ◌, ◌*ℤ◌, int_eq}
use qos_extended_mros2_esp.Base.Number.{int_base_0, decimal}
use qos_extended_mros2_esp.Base.Result.{Result, ok}
use qos_extended_mros2_esp.Base.Text.{words, partition, strip_prefix}
use qos_extended_mros2_esp.Telemetry.{
  TelemetryError, ContractOptions, validate_delivery_contract, check_contract, check_delivered,
  check_missing, check_moments, check_observability, check_observed, check_partial, is_bad_rate,
  only_two, read_observed, records_with, integer, parse_key_value_record, each, decode_ascii,
}
use qos_extended_mros2_esp.Telemetry.Delivery.{IsContract, validate_delivery_contract-IsContract}

abbrev pub config_pairs : String
config_pairs =
    " system=mros2 qos=BEST_EFFORT payload_bytes=64 rate_hz=10 target_tx=200 impairment=clean window_ms=20000 period_ms=100 interval_count=200"

abbrev pub final_pairs : String
final_pairs =
    " attempted_tx=200 publish_failures=0 rx=198 duplicates=0 malformed=0 rtt_samples=198 missing=2 missing_runs=1 max_missing_run=2 arrival_inversions=0 rtt_sum_us=1980 rtt_sum_sq_us2=19800"

abbrev pub compare_config : String
compare_config =
    "COMPARE_CONFIG system=mros2 qos=BEST_EFFORT payload_bytes=64 messages=200 period_ms=100 telemetry=on"

abbrev pub compare_final : String
compare_final =
    "COMPARE_FINAL system=mros2 tx=200 rx=198 samples=198 payload_bytes=64 period_ms=100 telemetry=on missing=2 missing_runs=1 max_missing_run=2 arrival_inversions=0 rtt_sum_us=1980 rtt_sum_sq_us2=19800 avg_us=10"

abbrev pub lossy : ContractOptions
lossy = record {
  expected_qos = "BEST_EFFORT";
  expected_payload_bytes = pos 64;
  expected_rate_hz = pos 10;
  expected_target_tx = pos 200;
  expected_impairment = "clean";
  require_full_delivery = false;
}

abbrev pub bench_config : Fields
bench_config =
    ("system", "mros2")
    ∷ ("qos", "BEST_EFFORT")
    ∷ ("payload_bytes", "64")
    ∷ ("rate_hz", "10")
    ∷ ("target_tx", "200")
    ∷ ("impairment", "clean")
    ∷ ("window_ms", "20000")
    ∷ ("period_ms", "100")
    ∷ ("interval_count", "200")
    ∷ []

abbrev pub bench_final : Fields
bench_final =
    ("attempted_tx", "200")
    ∷ ("publish_failures", "0")
    ∷ ("rx", "198")
    ∷ ("duplicates", "0")
    ∷ ("malformed", "0")
    ∷ ("rtt_samples", "198")
    ∷ ("missing", "2")
    ∷ ("missing_runs", "1")
    ∷ ("max_missing_run", "2")
    ∷ ("arrival_inversions", "0")
    ∷ ("rtt_sum_us", "1980")
    ∷ ("rtt_sum_sq_us2", "19800")
    ∷ []

abbrev pub compare_fields : Fields
compare_fields =
    ("system", "mros2")
    ∷ ("tx", "200")
    ∷ ("rx", "198")
    ∷ ("samples", "198")
    ∷ ("payload_bytes", "64")
    ∷ ("period_ms", "100")
    ∷ ("telemetry", "on")
    ∷ ("missing", "2")
    ∷ ("missing_runs", "1")
    ∷ ("max_missing_run", "2")
    ∷ ("arrival_inversions", "0")
    ∷ ("rtt_sum_us", "1980")
    ∷ ("rtt_sum_sq_us2", "19800")
    ∷ ("avg_us", "10")
    ∷ []

unfoldable pub contracted : Result TelemetryError Fields
unfolding validate_delivery_contract check_contract check_delivered check_missing check_moments
    check_observability check_observed check_partial is_bad_rate only_two read_observed records_with
    integer parse_key_value_record each decode_ascii decimal_text decimal fields_from check_fields
    integer_in words partition strip_prefix string_eq ℕ_discrete option_eq int_eq ◌*ℤ◌ ◌+ℤ◌ ◌-ℤ◌
    int_base_0
contracted =
    validate_delivery_contract ("x" ∷ compare_config ∷ compare_final ∷ []) bench_config bench_final
      lossy

contract_passes :
    validate_delivery_contract
      ("x" ∷ compare_config ∷ compare_final ∷ [])
      bench_config
      bench_final
      lossy
    ≡ ok compare_fields
unfolding contracted
contract_passes = refl

validate_delivery_contract-IsContract_example :
    IsContract
      ("x" ∷ compare_config ∷ compare_final ∷ [])
      lossy
      bench_config
      bench_final
      compare_fields
validate_delivery_contract-IsContract_example =
    validate_delivery_contract-IsContract ("x" ∷ compare_config ∷ compare_final ∷ []) bench_config
      bench_final lossy compare_fields contract_passes
