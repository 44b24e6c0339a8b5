-- ===== src/Telemetry/Log.antt =====
-- `validate`: the summary, and the whole of it.
use Prim.Native.Char.{Char, code}
use qos_extended_mros2_esp.Base.{
  ℕ, String, Bool, Option, none, some, List, [], ◌∷◌, map, length, get_elem?, leb, eqb, option_eq,
  string_eq, nat_eq, if◌then◌else◌,
}
use qos_extended_mros2_esp.Base.Fields.{Fields}
use qos_extended_mros2_esp.Base.Int.{ℤ, pos, ◌+ℤ◌, ◌-ℤ◌, leb_ℤ, int_eq}
use qos_extended_mros2_esp.Base.Order.{sort_with}
use qos_extended_mros2_esp.Base.Result.{Result, ok, err, ◌>>=◌, ◌>>◌, raise_if}
use qos_extended_mros2_esp.Base.Text.{strip}
use qos_extended_mros2_esp.Probe.{ProbeError, validate_control_probe}
use qos_extended_mros2_esp.Probe
use qos_extended_mros2_esp.Telemetry.Record.{
  TelemetryError, empty_minimum, no_records, probe, parse_record, integer, each,
}
use qos_extended_mros2_esp.Telemetry.Crc.{crc32}
use qos_extended_mros2_esp.Telemetry.Contract.{
  ContractOptions, get_text, validate_delivery_contract,
}
use qos_extended_mros2_esp.Telemetry.Raw.{check_raw, bench_lines, of_family, Marks, read_marks}
use qos_extended_mros2_esp.Telemetry.Parts.{
  integers, check_sequence, check_samples, check_markers, check_final, canonical, all_but_last,
  check_dump, check_tasks,
}

-- Twice the load of a sample, which is the mean of its two cores.
unfoldable pub busy_doubled : Fields → Result TelemetryError ℤ
busy_doubled fields = do
  busy0 ← integer fields "busy0_ppm"
  busy1 ← integer fields "busy1_ppm"
  ok (busy0 +ℤ busy1)

abbrev pub total_ℤ : List ℤ → ℤ
total_ℤ [] = pos 0
total_ℤ (x ∷ xs) = x +ℤ total_ℤ xs

-- `min(xs)` and `max(xs)`.
unfoldable pub least : List ℤ → Result TelemetryError ℤ
least [] = err empty_minimum
least (x ∷ []) = ok x
least (x ∷ y ∷ xs) = least (y ∷ xs) >>= λ m. ok (if leb_ℤ x m then x else m)

unfoldable pub greatest : List ℤ → Result TelemetryError ℤ
greatest [] = err empty_minimum
greatest (x ∷ []) = ok x
greatest (x ∷ y ∷ xs) = greatest (y ∷ xs) >>= λ m. ok (if leb_ℤ m x then x else m)

-- `xs[i]`
unfoldable pub nth : ℕ → List ℤ → Result TelemetryError ℤ
nth i xs = elim (get_elem? xs i) [ none ↦ err empty_minimum | some x ↦ ok x ]

-- `decode("ascii", errors="replace")`
abbrev replace_char : Char → Char
replace_char c = if leb (code c) 127 then c else "�"

unfoldable pub decode_replace : String → String
decode_replace String.[] = String.[]
decode_replace (String.◌∷◌ c s) = String.◌∷◌ (replace_char c) (decode_replace s)

unfoldable pub from_probe :
    Result ProbeError (Option Probe.Report) → Result TelemetryError (Option Probe.Report)
from_probe (ok report) = ok report
from_probe (err e) = err (probe e)

-- What is printed. The mean load is `busy_sum_doubled` over 400.
pub record Summary : Type 0 where
  pub records : ℕ
  pub tx : String
  pub rx : String
  pub tasks : ℕ
  pub window_us : ℤ
  pub busy_sum_doubled : ℤ
  pub busy_p95_doubled : ℤ
  pub max_lateness_us : ℤ
  pub min_internal_heap : ℤ
  pub min_stack_hwm : ℤ
  pub crc : ℕ
  pub control : Option Probe.Report

-- The last part. The 95th percentile of 200 samples is the 190th of them in order.
unfoldable pub summarize :
    List String
    → Bool
    → List String
    → Marks
    → List Fields
    → List Fields
    → Fields
    → Result TelemetryError Summary
summarize raw_lines require_control_probe lines marks samples tasks compare_final = do
  end_pre ← integer marks.end "marker_pre_us"
  start_post ← integer marks.start "marker_post_us"
  busy ← each busy_doubled samples
  p95 ← nth 189 (sort_with leb_ℤ busy)
  lateness ← integers "lateness_us" samples
  heaps ← integers "free_internal" samples
  heap ← least heaps
  stacks ← integers "stack_hwm_bytes" tasks
  stack ← least stacks
  control ← from_probe (
      validate_control_probe (map (λ raw. strip (decode_replace raw)) raw_lines)
        (get_text marks.config "system") "on" require_control_probe)
  latest ← greatest lateness
  ok (record {
    records = length lines;
    tx = get_text compare_final "tx";
    rx = get_text compare_final "rx";
    tasks = length tasks;
    window_us = end_pre -ℤ start_post;
    busy_sum_doubled = total_ℤ busy;
    busy_p95_doubled = p95;
    max_lateness_us = latest;
    min_internal_heap = heap;
    min_stack_hwm = stack;
    crc = crc32 (canonical (all_but_last lines));
    control = control;
  })

-- The tests on the records, and the summary.
unfoldable pub validate_parsed :
    List String
    → Bool
    → ContractOptions
    → List String
    → List (String × Fields)
    → Marks
    → Result TelemetryError Summary
validate_parsed raw_lines require_control_probe options lines records marks = do
  let samples = of_family "BENCH_SAMPLE" records
  let tasks = of_family "BENCH_TASK" records
  check_sequence records
  check_samples samples
  check_markers marks.start marks.end
  check_final marks.final
  compare_final ← validate_delivery_contract raw_lines marks.config marks.final options
  check_dump lines marks.dump
  check_tasks tasks marks.final
  summarize raw_lines require_control_probe lines marks samples tasks compare_final

unfoldable pub validate : List String → Bool → ContractOptions → Result TelemetryError Summary
validate raw_lines require_control_probe options = do
  check_raw raw_lines
  lines ← bench_lines raw_lines
  raise_if (eqb (length lines) 0) no_records
  records ← each parse_record lines
  marks ← read_marks records
  validate_parsed raw_lines require_control_probe options lines records marks
