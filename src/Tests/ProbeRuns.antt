-- ===== src/Tests/ProbeRuns.antt =====
-- Records of the control probe, read as telemetry_control_probe.py does.
use qos_extended_mros2_esp.Base.{
  String, Bool, true, false, Option, none, some, List, [], ◌∷◌, ◌≡◌, ◌↔◌, refl, length, string_eq,
  option_eq,
}
use native.Mathlib.Decide.{ℕ_discrete}
use qos_extended_mros2_esp.Base.Int.{pos, ◌-ℤ◌, ◌+ℤ◌, ◌*ℤ◌, int_eq}
use qos_extended_mros2_esp.Base.Text.{strip_prefix, words, partition}
use qos_extended_mros2_esp.Base.Number.{int_base_0}
use qos_extended_mros2_esp.Base.Result.{Result, ok, err}
use qos_extended_mros2_esp.Probe.{
  ProbeError, Report, record_count, busy_mismatch, validate_control_probe, validate_records,
  validate_record, parse_fields, fields_from, check_text, read_counters, integer, check_counters,
  check_core, expected_busy, report_of, records_of,
}
use qos_extended_mros2_esp.Probe.Laws.{
  IsReport, validate_control_probe-IsReport, validate_control_probe_absent,
}

-- A core that is busy for half a second of twenty, and one that is idle.
abbrev probe_line : String
probe_line =
    "COMPARE_CPU_CONTROL schema=1 system=ext telemetry=on fault_flags=0 start_begin_us=5 end_end_us=20000009 wall0_us=20000000 wall1_us=20000000 idle0_delta_us=19500000 idle1_delta_us=0x1312d00 busy0_ppm=25000 busy1_ppm=0 busy_mean_ppm=12500"

abbrev wrong_line : String
wrong_line =
    "COMPARE_CPU_CONTROL schema=1 system=ext telemetry=on fault_flags=0 start_begin_us=5 end_end_us=20000009 wall0_us=20000000 wall1_us=20000000 idle0_delta_us=19500000 idle1_delta_us=20000000 busy0_ppm=25001 busy1_ppm=0 busy_mean_ppm=12500"

abbrev report : Report
report = record {
  system = "ext";
  telemetry = "on";
  wall0_us = pos 20_000_000;
  wall1_us = pos 20_000_000;
  idle0_delta_us = pos 19_500_000;
  idle1_delta_us = pos 20_000_000;
  busy0_ppm = pos 25_000;
  busy1_ppm = pos 0;
  busy_mean_ppm = pos 12_500;
}

validated : List String → Bool → Result ProbeError (Option Report)
unfolding validate_control_probe validate_records validate_record parse_fields fields_from
    check_text read_counters integer check_counters check_core expected_busy report_of words
    partition int_base_0 string_eq option_eq int_eq ◌-ℤ◌ ◌+ℤ◌ ◌*ℤ◌ ℕ_discrete strip_prefix
validated lines required = validate_control_probe lines "ext" "on" required

probe_passes : validate_control_probe ("boot" ∷ probe_line ∷ []) "ext" "on" true ≡ ok (some report)
unfolding validated
probe_passes = refl

probe_fails :
    (validated (wrong_line ∷ []) false ≡ err busy_mismatch)
    × (validated (probe_line ∷ wrong_line ∷ []) false ≡ err record_count)
unfolding validated
probe_fails = (refl, refl)

validate_control_probe-IsReport_example :
    (length (records_of ("boot" ∷ probe_line ∷ [])) ≡ 1) × IsReport "ext" "on" report
validate_control_probe-IsReport_example =
    validate_control_probe-IsReport ("boot" ∷ probe_line ∷ []) "ext" "on" true report probe_passes

validate_control_probe_absent_example :
    (validate_control_probe ("boot" ∷ []) "ext" "on" false ≡ ok none)
    ↔ ((records_of ("boot" ∷ []) ≡ []) × (false ≡ false))
validate_control_probe_absent_example = validate_control_probe_absent ("boot" ∷ []) "ext" "on" false
