-- ===== src/Telemetry/Contract.antt =====
-- `validate_delivery_contract`, part by part.
use qos_extended_mros2_esp.Base.{
  zero, suc, ◌%◌, ◌++◌, String, Bool, true, false, not, ◌&&◌, ◌||◌, Option, none, some, List, [],
  ◌∷◌, filter, any, eqb, ◌==◌, option_eq, string_eq, if◌then◌else◌,
}
use qos_extended_mros2_esp.Base.Dict.{lookup}
use qos_extended_mros2_esp.Base.Fields.{Fields, check_fields, decimal_text}
use qos_extended_mros2_esp.Base.Int.{
  ℤ, pos, negsuc, ◌+ℤ◌, ◌-ℤ◌, ◌*ℤ◌, floor_div, leb_ℤ, ltb_ℤ, int_eq,
}
use qos_extended_mros2_esp.Base.Result.{Result, ok, err, ◌>>=◌, ◌>>◌, raise_if}
use qos_extended_mros2_esp.Base.Text.{starts_with}
use qos_extended_mros2_esp.Telemetry.Record.{
  TelemetryError, rate_not_divisor, contract_records, text_mismatch, delivered_range,
  delivered_mismatch, observability_incomplete, observability_differs, missing_count,
  inversions_range, zero_missing, missing_runs_range, zero_delivery, mean_mismatch,
  moments_impossible, integer, parse_key_value_record, decode_ascii, each,
}

-- The keyword arguments.
pub record ContractOptions : Type 0 where
  pub expected_qos : String
  pub expected_payload_bytes : ℤ
  pub expected_rate_hz : ℤ
  pub expected_target_tx : ℤ
  pub expected_impairment : String
  pub require_full_delivery : Bool

-- `rate <= 0 or 1000 % rate`
unfoldable pub is_bad_rate : ℤ → Bool
is_bad_rate (negsuc n) = true
is_bad_rate (pos zero) = true
is_bad_rate (pos (suc n)) = not (eqb (1000 % suc n) 0)

abbrev pub expected_period_ms : ContractOptions → ℤ
expected_period_ms options = floor_div (pos 1000) options.expected_rate_hz

-- `bench_config.get("system", "")`
abbrev pub get_text : Fields → String → String
get_text fields key = elim (lookup key fields) [ none ↦ "" | some text ↦ text ]

abbrev pub expected_compare_config : ContractOptions → String → List (String × String)
expected_compare_config options system =
    ("system", system)
    ∷ ("qos", options.expected_qos)
    ∷ ("payload_bytes", decimal_text options.expected_payload_bytes)
    ∷ ("messages", decimal_text options.expected_target_tx)
    ∷ ("period_ms", decimal_text (expected_period_ms options))
    ∷ ("telemetry", "on")
    ∷ []

-- Without full delivery, the pairs of `rx` and `samples` are taken out.
abbrev pub expected_compare_final : ContractOptions → String → List (String × String)
expected_compare_final options system =
    ("system", system)
    ∷ ("tx", decimal_text options.expected_target_tx)
    ∷ ((if options.require_full_delivery
          then ("rx", decimal_text options.expected_target_tx)
            ∷ ("samples", decimal_text options.expected_target_tx)
            ∷ []
          else [])
        ++ ("payload_bytes", decimal_text options.expected_payload_bytes)
          ∷ ("period_ms", decimal_text (expected_period_ms options))
          ∷ ("telemetry", "on")
          ∷ [])

abbrev pub expected_bench_config : ContractOptions → List (String × String)
expected_bench_config options =
    ("qos", options.expected_qos)
    ∷ ("payload_bytes", decimal_text options.expected_payload_bytes)
    ∷ ("rate_hz", decimal_text options.expected_rate_hz)
    ∷ ("target_tx", decimal_text options.expected_target_tx)
    ∷ ("impairment", options.expected_impairment)
    ∷ ("window_ms", "20000")
    ∷ ("period_ms", "100")
    ∷ ("interval_count", "200")
    ∷ []

abbrev pub expected_bench_final : ContractOptions → List (String × String)
expected_bench_final options =
    ("attempted_tx", decimal_text options.expected_target_tx)
    ∷ ("publish_failures", "0")
    ∷ ((if options.require_full_delivery
          then ("rx", decimal_text options.expected_target_tx) ∷ []
          else [])
        ++ ("duplicates", "0")
          ∷ ("malformed", "0")
          ∷ (if options.require_full_delivery
              then ("rtt_samples", decimal_text options.expected_target_tx) ∷ []
              else []))

-- `if integer(actual, key) != delivered: raise ...`
unfoldable pub check_delivered : ℤ → Fields → String → Result TelemetryError (Unit {0})
check_delivered delivered actual key =
    integer actual key >>= λ n. raise_if (not (n == delivered)) delivered_mismatch

-- The tests without full delivery.
unfoldable pub check_partial : ℤ → Fields → Fields → Result TelemetryError (Unit {0})
check_partial target compare_final bench_final = do
  delivered ← integer compare_final "rx"
  raise_if (ltb_ℤ delivered (pos 0) || ltb_ℤ target delivered) delivered_range
  check_delivered delivered compare_final "samples"
  check_delivered delivered bench_final "rx"
  check_delivered delivered bench_final "rtt_samples"

abbrev pub observability_keys : List String
observability_keys =
    "missing" ∷ "missing_runs" ∷ "max_missing_run" ∷ "arrival_inversions" ∷ "rtt_sum_us"
    ∷ "rtt_sum_sq_us2" ∷ []

-- `key in fields`
abbrev pub has : Fields → String → Bool
has fields key = elim (lookup key fields) [ none ↦ false | some text ↦ true ]

abbrev pub lacks : Fields → String → Bool
lacks fields key = not (has fields key)

abbrev pub unequal : Fields → Fields → String → Bool
unequal compare_final bench_final key = not (lookup key compare_final == lookup key bench_final)

-- The numbers of the delivery that COMPARE_FINAL states.
pub record Observed : Type 0 where
  pub delivered : ℤ
  pub missing : ℤ
  pub missing_runs : ℤ
  pub max_missing_run : ℤ
  pub inversions : ℤ
  pub sum_us : ℤ
  pub sum_sq_us2 : ℤ

unfoldable pub read_observed : Fields → Result TelemetryError Observed
read_observed fields = do
  delivered ← integer fields "rx"
  missing ← integer fields "missing"
  missing_runs ← integer fields "missing_runs"
  max_missing_run ← integer fields "max_missing_run"
  inversions ← integer fields "arrival_inversions"
  sum_us ← integer fields "rtt_sum_us"
  sum_sq_us2 ← integer fields "rtt_sum_sq_us2"
  ok (record {
    delivered = delivered;
    missing = missing;
    missing_runs = missing_runs;
    max_missing_run = max_missing_run;
    inversions = inversions;
    sum_us = sum_us;
    sum_sq_us2 = sum_sq_us2;
  })

unfoldable pub check_missing : Observed → Result TelemetryError (Unit {0})
check_missing o =
    if o.missing == pos 0
    then raise_if (not (o.missing_runs == pos 0) || not (o.max_missing_run == pos 0)) zero_missing
    else raise_if
        (not (
          leb_ℤ (pos 1) o.missing_runs
          && leb_ℤ o.missing_runs o.missing
          && leb_ℤ (floor_div (o.missing +ℤ o.missing_runs -ℤ pos 1) o.missing_runs)
              o.max_missing_run
          && leb_ℤ o.max_missing_run o.missing))
        missing_runs_range

unfoldable pub check_moments : Fields → Observed → Result TelemetryError (Unit {0})
check_moments compare_final o =
    if o.delivered == pos 0
    then raise_if (not (o.sum_us == pos 0) || not (o.sum_sq_us2 == pos 0)) zero_delivery
    else (integer compare_final "avg_us" >>= λ avg_us.
        raise_if (not (floor_div o.sum_us o.delivered == avg_us)) mean_mismatch
        >> raise_if (ltb_ℤ (o.sum_sq_us2 *ℤ o.delivered) (o.sum_us *ℤ o.sum_us)) moments_impossible)

unfoldable pub check_observed : ℤ → Fields → Observed → Result TelemetryError (Unit {0})
check_observed target compare_final o = do
  raise_if (not (o.missing == target -ℤ o.delivered)) missing_count
  raise_if (ltb_ℤ o.inversions (pos 0) || ltb_ℤ o.delivered o.inversions) inversions_range
  check_missing o
  check_moments compare_final o

-- The tests where one of the two records has a key of the observability.
unfoldable pub check_observability : ℤ → Fields → Fields → Result TelemetryError (Unit {0})
check_observability target compare_final bench_final = do
  raise_if
      (any (lacks compare_final) observability_keys || any (lacks bench_final) observability_keys)
      observability_incomplete
  raise_if (any (unequal compare_final bench_final) observability_keys) observability_differs
  o ← read_observed compare_final
  check_observed target compare_final o

-- The tests on the four records.
unfoldable pub check_contract :
    ContractOptions → Fields → Fields → Fields → Fields → Result TelemetryError Fields
check_contract options compare_config compare_final bench_config bench_final = do
  let system = get_text bench_config "system"
  let target = options.expected_target_tx
  check_fields text_mismatch compare_config (expected_compare_config options system)
  check_fields text_mismatch compare_final (expected_compare_final options system)
  check_fields text_mismatch bench_config (expected_bench_config options)
  check_fields text_mismatch bench_final (expected_bench_final options)
  (if options.require_full_delivery then ok tt else check_partial target compare_final bench_final)
  (if any (has compare_final) observability_keys || any (has bench_final) observability_keys
      then check_observability target compare_final bench_final
      else ok tt)
  ok compare_final

-- The lines that begin with a prefix, decoded.
unfoldable pub records_with : String → List String → Result TelemetryError (List String)
records_with prefix_blank raw_lines =
    each decode_ascii (filter (λ raw. starts_with raw prefix_blank) raw_lines)

-- The only element of a list.
abbrev pub single {ℓ} : {A : Type ℓ} → List A → Option A
single [] = none
single (x ∷ []) = some x
single (x ∷ y ∷ xs) = none

-- `if len(compare_configs) != 1 or len(compare_finals) != 1: raise ...`
unfoldable pub only_two : Option String → Option String → Result TelemetryError (String × String)
only_two (some config) (some final) = ok (config, final)
only_two (some config) none = err contract_records
only_two none final = err contract_records

unfoldable pub validate_delivery_contract :
    List String → Fields → Fields → ContractOptions → Result TelemetryError Fields
validate_delivery_contract raw_lines bench_config bench_final options = do
  raise_if (is_bad_rate options.expected_rate_hz) rate_not_divisor
  compare_configs ← records_with "COMPARE_CONFIG " raw_lines
  compare_finals ← records_with "COMPARE_FINAL " raw_lines
  lines ← only_two (single compare_configs) (single compare_finals)
  compare_config ← parse_key_value_record lines.0 "COMPARE_CONFIG "
  compare_final ← parse_key_value_record lines.1 "COMPARE_FINAL "
  check_contract options compare_config compare_final bench_config bench_final
