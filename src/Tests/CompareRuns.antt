-- ===== src/Tests/CompareRuns.antt =====
-- A log of one run, read as three_system_common.py does.
use native.Mathlib.Decide.{ℕ_discrete}
use qos_extended_mros2_esp.Base.{
  String, true, Option, none, some, List, [], ◌∷◌, ◌≡◌, refl, string_eq, option_eq, nat_eq,
}
use qos_extended_mros2_esp.Base.Int.{pos, ◌+ℤ◌, int_eq}
use qos_extended_mros2_esp.Base.Text.{strip_prefix, words, partition}
use qos_extended_mros2_esp.Base.Number.{int_base_10}
use qos_extended_mros2_esp.Base.Order.{sort_with, insert_with}
use qos_extended_mros2_esp.Compare.{
  Report, SerialError, rtt_duplicate, when, joined, compare_line, fields_from, fields_of, integer,
  records_from, group_from, system_errors, entries, last_entry, count_errors, config_errors,
  with_sequence, with_sample, samples_from, integer_errors, final_values, min_from, max_from,
  expected_min, expected_max, sum_ℤ, expected_average, final_errors, session_of, session, report_of,
  parse_compare_serial,
}
use qos_extended_mros2_esp.Compare.Accepted.{IsMeasured, parse_compare_serial-IsMeasured}

abbrev config_line : String
config_line =
    "I (5) COMPARE_CONFIG system=upstream qos=BEST_EFFORT payload_bytes=64 messages=40 period_ms=500 settle_ms=1000 grace_ms=5000"

abbrev final_line : String
final_line =
    "COMPARE_FINAL system=upstream tx=40 rx=2 samples=2 min_us=900 avg_us=950 max_us=1001 ready_ms=77 payload_bytes=64 period_ms=500 grace_ms=5000"

abbrev first_sample : String
first_sample = "COMPARE_RTT system=upstream seq=3 rtt_us=1001"

abbrev second_sample : String
second_sample = "COMPARE_RTT system=upstream seq=0 rtt_us=900"

abbrev around : List String → List String
around samples =
    "boot" ∷ config_line ∷ "COMPARE_READY ready_ms=77" ∷ "COMPARE_RESOURCE free_heap_bytes=120000"
    ∷ first_sample ∷ second_sample ∷ samples

parsed : List String → Option Report
unfolding parse_compare_serial report_of session session_of final_errors expected_average sum_ℤ
    expected_max expected_min max_from min_from final_values integer_errors samples_from with_sample
    with_sequence config_errors count_errors last_entry entries system_errors group_from
    records_from integer fields_of fields_from compare_line joined when sort_with insert_with
    int_base_10 partition words strip_prefix ◌+ℤ◌ int_eq string_eq option_eq nat_eq ℕ_discrete
parsed lines = parse_compare_serial lines "upstream"

abbrev errors_of : Option Report → List SerialError
errors_of none = []
errors_of (some r) = r.errors

abbrev report : Report
report = record {
  accepted = true;
  errors = [];
  system = "upstream";
  ready_ms = pos 77;
  session_ms = none;
  free_heap_bytes = pos 120_000;
  tx = pos 40;
  rx = pos 2;
  samples = pos 2;
  rtts_us = (pos 0, pos 900) ∷ (pos 3, pos 1001) ∷ [];
  final =
      ("system", "upstream")
      ∷ ("tx", "40")
      ∷ ("rx", "2")
      ∷ ("samples", "2")
      ∷ ("min_us", "900")
      ∷ ("avg_us", "950")
      ∷ ("max_us", "1001")
      ∷ ("ready_ms", "77")
      ∷ ("payload_bytes", "64")
      ∷ ("period_ms", "500")
      ∷ ("grace_ms", "5000")
      ∷ [];
}

run_accepted : parse_compare_serial (around (final_line ∷ [])) "upstream" ≡ some report
unfolding parsed
run_accepted = refl

-- The same sample twice.
run_refused :
    errors_of (parsed (around (first_sample ∷ final_line ∷ []))) ≡ rtt_duplicate (pos 3) ∷ []
unfolding parsed
run_refused = refl

parse_compare_serial-IsMeasured_example : IsMeasured report
parse_compare_serial-IsMeasured_example =
    parse_compare_serial-IsMeasured (around (final_line ∷ [])) "upstream" report run_accepted refl
