-- ===== src/Tests/TelemetryRuns.antt =====
-- A telemetry log of 200 samples, as validate_benchmark_telemetry_smoke.py reads it.
use Prim.Native.Nat.{bit_xor}
use native.Mathlib.Decide.{ℕ_discrete}
use qos_extended_mros2_esp.Base.{
  take, drop, ℕ, ◌+◌, ◌*◌, ◌≡◌, refl, ◌<>◌, ◌++◌, String, false, none, List, [], ◌∷◌, map,
  flat_map-append, ap, sym, arith, ◌∙◌, length, range_from, string_eq, option_eq, nat_eq,
}
use qos_extended_mros2_esp.Base.Fields.{Fields, decimal_text, fields_from, integer_in}
use qos_extended_mros2_esp.Base.Int.{ℤ, leb_ℤ, pos, ◌+ℤ◌, ◌-ℤ◌, int_eq}
use qos_extended_mros2_esp.Base.Number.{int_base_0, decimal}
use qos_extended_mros2_esp.Base.Order.{sort_with}
use qos_extended_mros2_esp.Base.Result.{ok, err}
use qos_extended_mros2_esp.Base.Text.{words, partition, strip_prefix, strip, lstrip, rstrip}
use qos_extended_mros2_esp.Probe.{validate_control_probe, validate_records}
use qos_extended_mros2_esp.Telemetry.{
  Summary, validate_delivery_contract, validate, validate_parsed, integer, each, decode_ascii,
  uart_activity, check_raw, check_activity, indices_from, activity_between, is_activity,
  bench_lines, parse_record, record_family, crc32, busy_doubled, check_dump, check_faults,
  check_final, check_markers, check_samples, check_sequence, check_tasks, decode_replace,
  dump_is_last, from_probe, greatest, increasing, least, nth, of_family, one_token, read_marks,
  same_numbers, summarize, the_record, Marks, integers, get_text, canonical, all_but_last,
  crc_bytes, crc_bytes-append,
}
use qos_extended_mros2_esp.Telemetry.Window.{IsWindow, validate-IsWindow}
use qos_extended_mros2_esp.Tests.ContractRuns.{
  config_pairs, final_pairs, compare_config, compare_final, lossy, compare_fields, contracted,
}

-- A record of one run.
abbrev record_line : String → ℕ → String → String
record_line family seq more =
    family <> " run_token=t schema=1 record_seq=" <> decimal_text (pos seq) <> more

abbrev sample_line : ℕ → String
sample_line i = record_line "BENCH_SAMPLE" (i + 2) (
    " index="
    <> decimal_text (pos i)
    <> " board_time_us="
    <> decimal_text (pos (i * 100))
    <> " fault_flags=0 busy0_ppm=100 busy1_ppm=300 lateness_us=5 free_internal=90000")

-- Fifty samples, from an index on.
abbrev fifty : ℕ → List String
fifty i = map sample_line (range_from i 50)

abbrev first_lines : List String
first_lines =
    record_line "BENCH_CONFIG" 0 config_pairs
    ∷ record_line "BENCH_WINDOW_START" 1 " marker_state=1 marker_pre_us=10 marker_post_us=20"
    ∷ []

abbrev last_lines : List String
last_lines =
    record_line "BENCH_TASK" 202 " stack_hwm_bytes=512"
    ∷ record_line "BENCH_WINDOW_END" 203
        " marker_state=0 marker_pre_us=20000020 marker_post_us=20000030"
    ∷ record_line "BENCH_FINAL" 204
        (" completion=complete samples=200 tasks=1 missed_intervals=0 fault_flags=0" <> final_pairs)
    ∷ []

-- The records; two of 200 messages are missing, in one run.
lines : List String
lines =
    first_lines
    ++ (fifty 0
        ++ (fifty 50
            ++ (fifty 100
                ++ (fifty 150
                    ++ (last_lines
                        ++ record_line "BENCH_DUMP_END" 205 " record_count=205 crc32=563197179"
                          ∷ [])))))

-- The log has a blank line in the window, and the lines of the delivery.
log : List String
unfolding lines
log = take 1 lines ++ "" ∷ drop 1 lines ++ compare_config ∷ compare_final ∷ []

records : List (String × Fields)
unfolding lines each parse_record record_family fields_from words partition strip_prefix string_eq
    decimal_text decimal
records = elim (each parse_record lines) [ ok found ↦ found | err e ↦ [] ]

abbrev summary : Summary
summary = record {
  records = 206;
  tx = "200";
  rx = "198";
  tasks = 1;
  window_us = pos 20_000_000;
  busy_sum_doubled = pos 80_000;
  busy_p95_doubled = pos 400;
  max_lateness_us = pos 5;
  min_internal_heap = pos 90_000;
  min_stack_hwm = pos 512;
  crc = 563197179;
  control = none;
}

raw_passes : check_raw log ≡ ok tt
unfolding log check_raw check_activity indices_from activity_between is_activity strip_prefix
    decimal_text decimal
raw_passes = refl

-- With the start first, the line between the two records is not seen; with the configuration first
-- it is refused.
start_first_passes : check_raw ("BENCH_WINDOW_START a" ∷ "noise" ∷ "BENCH_CONFIG b" ∷ []) ≡ ok tt
unfolding check_raw check_activity indices_from activity_between is_activity strip_prefix
start_first_passes = refl

config_first_fails :
    check_raw ("BENCH_CONFIG b" ∷ "noise" ∷ "BENCH_WINDOW_START a" ∷ []) ≡ err uart_activity
unfolding check_raw check_activity indices_from activity_between is_activity strip_prefix
config_first_fails = refl

lines_pass : bench_lines log ≡ ok lines
unfolding log bench_lines each decode_ascii strip_prefix decimal_text decimal
lines_pass = refl

records_pass : each parse_record lines ≡ ok records
unfolding records
records_pass = refl

sequence_passes : check_sequence records ≡ ok tt
unfolding records check_sequence dump_is_last one_token same_numbers integer integer_in int_base_0
    int_eq option_eq ℕ_discrete
sequence_passes = refl

marks : Marks
unfolding records read_marks the_record of_family string_eq
marks = elim (read_marks records) [
  | ok found ↦ found
  | err e ↦ record { config = []; start = []; end = []; final = []; dump = [] }
]

marks_pass : read_marks records ≡ ok marks
unfolding marks
marks_pass = refl

samples : List Fields
samples = of_family "BENCH_SAMPLE" records

tasks : List Fields
tasks = of_family "BENCH_TASK" records

samples_pass : check_samples samples ≡ ok tt
unfolding samples records of_family check_samples same_numbers increasing check_faults integer
    integer_in int_base_0 int_eq ℕ_discrete
samples_pass = refl

markers_pass : check_markers marks.start marks.end ≡ ok tt
unfolding marks check_markers integer integer_in int_base_0 int_eq ℕ_discrete
markers_pass = refl

final_passes : check_final marks.final ≡ ok tt
unfolding marks check_final integer integer_in int_base_0 int_eq ℕ_discrete option_eq
final_passes = refl

log_contract_passes :
    validate_delivery_contract log marks.config marks.final lossy ≡ ok compare_fields
unfolding log marks contracted
log_contract_passes = refl

crc_first : crc_bytes 4294967295 (canonical first_lines) ≡ 1492412511
unfolding crc_bytes decimal_text decimal
crc_first = refl

crc_fifty_0 : crc_bytes 1492412511 (canonical (fifty 0)) ≡ 787245273
unfolding crc_bytes decimal_text decimal
crc_fifty_0 = refl

crc_fifty_50 : crc_bytes 787245273 (canonical (fifty 50)) ≡ 411335737
unfolding crc_bytes decimal_text decimal
crc_fifty_50 = refl

crc_fifty_100 : crc_bytes 411335737 (canonical (fifty 100)) ≡ 3585622564
unfolding crc_bytes decimal_text decimal
crc_fifty_100 = refl

crc_fifty_150 : crc_bytes 3585622564 (canonical (fifty 150)) ≡ 2756766155
unfolding crc_bytes decimal_text decimal
crc_fifty_150 = refl

crc_last : crc_bytes 2756766155 (canonical last_lines) ≡ 3731770116
unfolding crc_bytes decimal_text decimal
crc_last = refl

crc_step :
    (a b : ℕ) (xs ys : List String)
    → crc_bytes a (canonical xs) ≡ b
    → crc_bytes a (canonical (xs ++ ys)) ≡ crc_bytes b (canonical ys)
crc_step a b xs ys h =
    ap (crc_bytes a) (flat_map-append _ xs ys)
    ∙ crc_bytes-append a (canonical xs) (canonical ys)
    ∙ ap (λ crc. crc_bytes crc (canonical ys)) h

before_dump :
    all_but_last lines
    ≡ first_lines ++ (fifty 0 ++ (fifty 50 ++ (fifty 100 ++ (fifty 150 ++ last_lines))))
unfolding lines
before_dump = refl

abbrev from_150 : List String
from_150 = fifty 150 ++ last_lines

abbrev from_100 : List String
from_100 = fifty 100 ++ from_150

abbrev from_50 : List String
from_50 = fifty 50 ++ from_100

abbrev from_0 : List String
from_0 = fifty 0 ++ from_50

crc_before_dump : crc_bytes 0xffffffff (canonical (all_but_last lines)) ≡ 3731770116
crc_before_dump =
    ap (λ xs. crc_bytes 0xffffffff (canonical xs)) before_dump
    ∙ crc_step _ _ first_lines from_0 crc_first
    ∙ crc_step _ _ (fifty 0) from_50 crc_fifty_0
    ∙ crc_step _ _ (fifty 50) from_100 crc_fifty_50
    ∙ crc_step _ _ (fifty 100) from_150 crc_fifty_100
    ∙ crc_step _ _ (fifty 150) last_lines crc_fifty_150
    ∙ crc_last

crc_of_lines : crc32 (canonical (all_but_last lines)) ≡ 563197179
unfolding crc32
crc_of_lines = ap (λ crc. bit_xor crc 0xffffffff) crc_before_dump

stated_dump :
    (integer marks.dump "record_count" ≡ ok (pos 205))
    × (integer marks.dump "crc32" ≡ ok (pos 563197179))
unfolding marks integer integer_in int_base_0 string_eq
stated_dump = (refl, refl)

as_many : length (all_but_last lines) ≡ 205
unfolding lines
as_many = refl

check_dump_ok :
    (texts : List String) (dump : Fields)
    → integer dump "record_count" ≡ ok (pos (length (all_but_last texts)))
    → integer dump "crc32" ≡ ok (pos (crc32 (canonical (all_but_last texts))))
    → check_dump texts dump ≡ ok tt
unfolding check_dump
check_dump_ok texts dump h k = ground (arith, h, k)

dump_passes : check_dump lines marks.dump ≡ ok tt
dump_passes =
    check_dump_ok lines marks.dump (stated_dump.0 ∙ ap (λ n. ok (pos n)) (sym as_many))
      (stated_dump.1 ∙ ap (λ n. ok (pos n)) (sym crc_of_lines))

tasks_pass : check_tasks tasks marks.final ≡ ok tt
unfolding tasks records of_family marks check_tasks integer integer_in int_base_0 int_eq ℕ_discrete
tasks_pass = refl

task_count_is : length tasks ≡ 1
unfolding tasks records of_family string_eq
task_count_is = refl

-- The same number for each sample.
abbrev repeated : ℕ → List ℤ
repeated n = map (λ i. pos n) (range_from 0 200)

line_count : length lines ≡ 206
unfolding lines
line_count = refl

window_read :
    (integer marks.end "marker_pre_us" ≡ ok (pos 20_000_020))
    × (integer marks.start "marker_post_us" ≡ ok (pos 20))
unfolding marks integer integer_in int_base_0
window_read = (refl, refl)

busy_read : each busy_doubled samples ≡ ok (repeated 400)
unfolding samples records of_family each integer integer_in int_base_0 busy_doubled ◌+ℤ◌
busy_read = refl

busy_p95 : nth 189 (sort_with leb_ℤ (repeated 400)) ≡ ok (pos 400)
unfolding nth sort_with
busy_p95 = refl

lateness_read : integers "lateness_us" samples ≡ ok (repeated 5)
unfolding samples records of_family each integer integer_in int_base_0
lateness_read = refl

heaps_read : integers "free_internal" samples ≡ ok (repeated 90_000)
unfolding samples records of_family each integer integer_in int_base_0
heaps_read = refl

stacks_read : integers "stack_hwm_bytes" tasks ≡ ok (pos 512 ∷ [])
unfolding tasks records of_family each integer integer_in int_base_0
stacks_read = refl

extremes :
    (least (repeated 90_000) ≡ ok (pos 90_000))
    × (least (pos 512 ∷ []) ≡ ok (pos 512))
    × (greatest (repeated 5) ≡ ok (pos 5))
unfolding least greatest
extremes = (refl, refl, refl)

control_absent :
    from_probe (
      validate_control_probe
        (map (λ raw. strip (decode_replace raw)) log)
        (get_text marks.config "system")
        "on"
        false)
    ≡ ok none
unfolding log from_probe validate_control_probe validate_records strip_prefix decode_replace lstrip
    rstrip decimal_text decimal
control_absent = refl

summary_passes : summarize log false lines marks samples tasks compare_fields ≡ ok summary
unfolding summarize string_eq ◌-ℤ◌ ◌+ℤ◌
summary_passes =
    rw
      (
        window_read.0, window_read.1, busy_read, busy_p95, lateness_read, heaps_read, extremes.0,
        stacks_read, extremes.1, control_absent, extremes.2, crc_of_lines, line_count,
        task_count_is,
      )
      refl

log_passes : validate log false lossy ≡ ok summary
unfolding validate validate_parsed samples tasks
log_passes =
    rw
      (
        raw_passes, lines_pass, line_count, records_pass, marks_pass, sequence_passes, samples_pass,
        markers_pass, final_passes, log_contract_passes, dump_passes, tasks_pass,
      )
      summary_passes

validate-IsWindow_example : IsWindow log lossy summary
validate-IsWindow_example = validate-IsWindow log false lossy summary log_passes
