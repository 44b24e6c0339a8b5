-- ===== src/Telemetry/Window.antt =====
-- What a log that passes `validate` holds.
use qos_extended_mros2_esp.Base.{
  ◌≡◌, ◌≢◌, string_eq, some, refl, sym, ap, ◌∙◌, subst, String, Bool, List, All, Any, length, eqb,
  map,
}
use qos_extended_mros2_esp.Base.Dict.{lookup}
use qos_extended_mros2_esp.Base.Fields.{Fields}
use qos_extended_mros2_esp.Base.Int.{ℤ, pos, ◌-ℤ◌, ◌≤ℤ◌, leb_ℤ}
use qos_extended_mros2_esp.Base.Order.{sort_with}
use qos_extended_mros2_esp.Base.Result.{ok, >>=-eq-ok, ok_injective, raise_if}
use qos_extended_mros2_esp.Base.Text.{strip}
use qos_extended_mros2_esp.Probe.{validate_control_probe}
use qos_extended_mros2_esp.Telemetry.Record.{no_records, parse_record, integer, each}
use qos_extended_mros2_esp.Telemetry.Crc.{crc32}
use qos_extended_mros2_esp.Telemetry.Contract.{
  ContractOptions, get_text, validate_delivery_contract,
}
use qos_extended_mros2_esp.Telemetry.Raw.{check_raw, bench_lines, of_family, Marks, read_marks}
use qos_extended_mros2_esp.Telemetry.Parts.{
  check_sequence, check_samples, check_markers, check_final, canonical, all_but_last, check_dump,
  check_tasks, integers,
}
use qos_extended_mros2_esp.Telemetry.Log.{
  busy_doubled, least, greatest, nth, decode_replace, from_probe, Summary, summarize,
  validate_parsed, validate,
}
use qos_extended_mros2_esp.Telemetry.Delivery.{IsContract, validate_delivery_contract-IsContract}
use qos_extended_mros2_esp.Telemetry.Samples.{
  IsSequence, check_sequence-IsSequence, IsSampled, check_samples-IsSampled,
}
use qos_extended_mros2_esp.Telemetry.Checks.{
  check_dump_lem, check_tasks_lem, check_final-tasks, IsQuiet, check_raw-IsQuiet, least-All,
  least-Any, greatest-All, greatest-Any,
}

-- What the summary says of the parts that it is made of.
pub record IsSummary (lines : List String) (marks : Marks) (samples tasks : List Fields)
    (compare_final : Fields) (s : Summary) : Type 0 where
  pub records_are : s.records ≡ length lines
  pub tx_is : s.tx ≡ get_text compare_final "tx"
  pub rx_is : s.rx ≡ get_text compare_final "rx"
  pub tasks_are : s.tasks ≡ length tasks
  pub crc_is : s.crc ≡ crc32 (canonical (all_but_last lines))
  pub window_is :
      (a : ℤ) × (b : ℤ) × (integer marks.end "marker_pre_us" ≡ ok a)
      × (integer marks.start "marker_post_us" ≡ ok b)
      × (s.window_us ≡ a -ℤ b)
  pub least_heap :
      (heaps : List ℤ) × (integers "free_internal" samples ≡ ok heaps)
      × All (λ heap. s.min_internal_heap ≤ℤ heap) heaps
      × Any (λ heap. heap ≡ s.min_internal_heap) heaps
  pub least_stack :
      (stacks : List ℤ) × (integers "stack_hwm_bytes" tasks ≡ ok stacks)
      × All (λ stack. s.min_stack_hwm ≤ℤ stack) stacks
      × Any (λ stack. stack ≡ s.min_stack_hwm) stacks
  pub greatest_lateness :
      (lateness : List ℤ) × (integers "lateness_us" samples ≡ ok lateness)
      × All (λ late. late ≤ℤ s.max_lateness_us) lateness
      × Any (λ late. late ≡ s.max_lateness_us) lateness

summarize-IsSummary :
    (raw_lines : List String) (required : Bool) (lines : List String) (marks : Marks)
    (samples tasks : List Fields) (compare_final : Fields) (s : Summary)
    → summarize raw_lines required lines marks samples tasks compare_final ≡ ok s
    → IsSummary lines marks samples tasks compare_final s
unfolding summarize
summarize-IsSummary raw_lines required lines marks samples tasks compare_final s h =
    let (a, h1, k1) = >>=-eq-ok (integer marks.end "marker_pre_us") _ h in
    let (b, h2, k2) = >>=-eq-ok (integer marks.start "marker_post_us") _ k1 in
    let (busy, _, k3) = >>=-eq-ok (each busy_doubled samples) _ k2 in
    let (p95, _, k4) = >>=-eq-ok (nth 189 (sort_with leb_ℤ busy)) _ k3 in
    let (lateness, h5, k5) = >>=-eq-ok (integers "lateness_us" samples) _ k4 in
    let (heaps, h6, k6) = >>=-eq-ok (integers "free_internal" samples) _ k5 in
    let (heap, h7, k7) = >>=-eq-ok (least heaps) _ k6 in
    let (stacks, h8, k8) = >>=-eq-ok (integers "stack_hwm_bytes" tasks) _ k7 in
    let (stack, h9, k9) = >>=-eq-ok (least stacks) _ k8 in
    let (control, _, k10) =
      >>=-eq-ok
        (from_probe (
          validate_control_probe (map (λ raw. strip (decode_replace raw)) raw_lines)
            (get_text marks.config "system") "on" required))
        _ k9 in
    let (latest, h11, k11) = >>=-eq-ok (greatest lateness) _ k10 in
    subst (IsSummary lines marks samples tasks compare_final) (ok_injective k11) (record {
      records_are = refl;
      tx_is = refl;
      rx_is = refl;
      tasks_are = refl;
      crc_is = refl;
      window_is = (a, b, h1, h2, refl);
      least_heap = (heaps, h6, least-All heaps heap h7, least-Any heaps heap h7);
      least_stack = (stacks, h8, least-All stacks stack h9, least-Any stacks stack h9);
      greatest_lateness =
          (lateness, h5, greatest-All lateness latest h11, greatest-Any lateness latest h11);
    })

-- The parts of a log that passes, and what each of them is.
pub record IsWindow (raw_lines : List String) (options : ContractOptions) (s : Summary)
    : Type 0 where
  pub lines : List String
  pub records : List (String × Fields)
  pub marks : Marks
  pub compare_final : Fields
  pub quiet : IsQuiet raw_lines
  pub lines_are : bench_lines raw_lines ≡ ok lines
  pub records_are : each parse_record lines ≡ ok records
  pub marks_are : read_marks records ≡ ok marks
  pub sequence : IsSequence records
  pub sampled : IsSampled (of_family "BENCH_SAMPLE" records)
  pub complete : lookup "completion" marks.final ≡ some "complete"
  pub tasks_stated : integer marks.final "tasks" ≡ ok (pos s.tasks)
  pub some_task : s.tasks ≢ 0
  pub crc_stated : integer marks.dump "crc32" ≡ ok (pos s.crc)
  pub contract : IsContract raw_lines options marks.config marks.final compare_final
  pub summary :
      IsSummary lines marks
        (of_family "BENCH_SAMPLE" records)
        (of_family "BENCH_TASK" records)
        compare_final
        s

-- A log that passes has one configuration and one start of the window. Where the configuration
-- stands first, every line behind it and before the start is blank; that it stands first is not
-- said. The records are of one run, are counted from 0 without a gap, and end with the dump, which
-- states the CRC-32 of all of them before it. There are 200 samples with the indices 0 to 199, at
-- later and later times, without a fault. The run is complete and states as many tasks as are
-- recorded, of which there is one at least. Its delivery contract passes. The summary has the length
-- of the window between its two marks, and the least heap, the least stack and the greatest lateness
-- of the records: each of them is that of a record and a bound of all.
pub validate-IsWindow :
    (raw_lines : List String) (required : Bool) (options : ContractOptions) (s : Summary)
    → validate raw_lines required options ≡ ok s
    → IsWindow raw_lines options s
unfolding validate validate_parsed
validate-IsWindow raw_lines required options s h =
    let (u1, h1, k1) = >>=-eq-ok (check_raw raw_lines) _ h in
    let (lines, h2, k2) = >>=-eq-ok (bench_lines raw_lines) _ k1 in
    let (_, _, k3) = >>=-eq-ok (raise_if (eqb (length lines) 0) no_records) _ k2 in
    let (records, h4, k4) = >>=-eq-ok (each parse_record lines) _ k3 in
    let (marks, h5, k5) = >>=-eq-ok (read_marks records) _ k4 in
    let samples = of_family "BENCH_SAMPLE" records in
    let tasks = of_family "BENCH_TASK" records in
    let (u6, h6, k6) = >>=-eq-ok (check_sequence records) _ k5 in
    let (u7, h7, k7) = >>=-eq-ok (check_samples samples) _ k6 in
    let (_, _, k8) = >>=-eq-ok (check_markers marks.start marks.end) _ k7 in
    let (u9, h9, k9) = >>=-eq-ok (check_final marks.final) _ k8 in
    let (compare_final, h10, k10) =
      >>=-eq-ok (validate_delivery_contract raw_lines marks.config marks.final options) _ k9 in
    let (u11, h11, k11) = >>=-eq-ok (check_dump lines marks.dump) _ k10 in
    let (u12, h12, k12) = >>=-eq-ok (check_tasks tasks marks.final) _ k11 in
    let summary =
      summarize-IsSummary raw_lines required lines marks samples tasks compare_final s k12 in
    let stated =
      check_tasks_lem tasks marks.final u12 h12 ∙ ap (λ n. ok (pos n)) (sym summary.tasks_are) in
    let (complete, some_task) = check_final-tasks marks.final u9 h9 in
    record {
      lines = lines;
      records = records;
      marks = marks;
      compare_final = compare_final;
      quiet = check_raw-IsQuiet raw_lines u1 h1;
      lines_are = h2;
      records_are = h4;
      marks_are = h5;
      sequence = check_sequence-IsSequence records u6 h6;
      sampled = check_samples-IsSampled samples u7 h7;
      complete = complete;
      tasks_stated = stated;
      some_task = λ none_there. some_task (stated ∙ ap (λ n. ok (pos n)) none_there);
      crc_stated =
          (check_dump_lem lines marks.dump u11 h11).1 ∙ ap (λ n. ok (pos n)) (sym summary.crc_is);
      contract =
          validate_delivery_contract-IsContract raw_lines marks.config marks.final options
            compare_final h10;
      summary = summary;
    }
