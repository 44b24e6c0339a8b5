-- ===== src/Telemetry/Parts.antt =====
-- The tests of `validate` on the records of a log.
use qos_extended_mros2_esp.Base.{
  ℕ, ◌++◌, String, Bool, true, false, not, ◌&&◌, Option, none, some, List, [], ◌∷◌, map, any,
  length, last?, flat_map, range_from, eqb, ◌==◌, option_eq, string_eq, nat_eq,
}
use qos_extended_mros2_esp.Base.Dict.{lookup}
use qos_extended_mros2_esp.Base.Fields.{Fields}
use qos_extended_mros2_esp.Base.Int.{ℤ, pos, ltb_ℤ, int_eq}
use qos_extended_mros2_esp.Base.Result.{Result, ok, ◌>>=◌, ◌>>◌, raise_if}
use qos_extended_mros2_esp.Base.Text.{codes}
use qos_extended_mros2_esp.Telemetry.Record.{
  TelemetryError, dump_not_last, run_tokens, schemas, sequence_gap, sample_count, sample_indices,
  sample_times, sample_fault, marker_state, start_regress, end_regress, incomplete, final_samples,
  no_tasks, missed_intervals, final_fault, record_count, crc_mismatch, task_count, integer, each,
}
use qos_extended_mros2_esp.Telemetry.Crc.{crc32}

-- The only record of its family is the last one of all.
unfoldable pub dump_is_last : List (String × Fields) → Bool
dump_is_last records = elim (last? records) [
  | none ↦ false
  | some (family, fields) ↦ family == "BENCH_DUMP_END"
]

-- `len(run_tokens) == 1 and None not in run_tokens`
unfoldable pub one_token : List (Option String) → Bool
one_token [] = false
one_token (none ∷ tokens) = false
one_token (some token ∷ tokens) = not (any (λ other. not (other == some token)) tokens)

-- `==` on lists of integers.
unfoldable pub same_numbers : List ℤ → List ℤ → Bool
same_numbers [] [] = true
same_numbers [] (y ∷ ys) = false
same_numbers (x ∷ xs) [] = false
same_numbers (x ∷ xs) (y ∷ ys) = x == y && same_numbers xs ys

abbrev pub up_to : ℕ → List ℤ
up_to n = map pos (range_from 0 n)

abbrev pub integers : String → List Fields → Result TelemetryError (List ℤ)
integers key records = each (λ fields. integer fields key) records

abbrev pub all_fields : List (String × Fields) → List Fields
all_fields records = map (λ (entry : String × Fields). entry.1) records

-- `record_seq` counts the records from 0.
unfoldable pub check_sequence : List (String × Fields) → Result TelemetryError (Unit {0})
check_sequence records = do
  raise_if (not (dump_is_last records)) dump_not_last
  raise_if (not (one_token (map (λ fields. lookup "run_token" fields) (all_fields records))))
      run_tokens
  versions ← integers "schema" (all_fields records)
  raise_if (any (λ version. not (version == pos 1)) versions) schemas
  sequences ← integers "record_seq" (all_fields records)
  raise_if (not (same_numbers sequences (up_to (length sequences)))) sequence_gap

unfoldable pub increasing : List ℤ → Bool
increasing [] = true
increasing (x ∷ []) = true
increasing (x ∷ y ∷ xs) = ltb_ℤ x y && increasing (y ∷ xs)

-- `any(integer(fields, "fault_flags") != 0 for fields in samples)`
unfoldable pub check_faults : List Fields → Result TelemetryError (Unit {0})
check_faults [] = ok tt
check_faults (fields ∷ samples) =
    let rest = check_faults samples in
    integer fields "fault_flags" >>= λ flags. raise_if (not (flags == pos 0)) sample_fault >> rest

unfoldable pub check_samples : List Fields → Result TelemetryError (Unit {0})
check_samples samples = do
  raise_if (not (eqb (length samples) 200)) sample_count
  indices ← integers "index" samples
  raise_if (not (same_numbers indices (up_to 200))) sample_indices
  times ← integers "board_time_us" samples
  raise_if (not (increasing times)) sample_times
  check_faults samples

unfoldable pub check_markers : Fields → Fields → Result TelemetryError (Unit {0})
check_markers start end = do
  high ← integer start "marker_state"
  raise_if (not (high == pos 1)) marker_state
  low ← integer end "marker_state"
  raise_if (not (low == pos 0)) marker_state
  start_post ← integer start "marker_post_us"
  start_pre ← integer start "marker_pre_us"
  raise_if (ltb_ℤ start_post start_pre) start_regress
  end_post ← integer end "marker_post_us"
  end_pre ← integer end "marker_pre_us"
  raise_if (ltb_ℤ end_post end_pre) end_regress

unfoldable pub check_final : Fields → Result TelemetryError (Unit {0})
check_final final = do
  raise_if (not (lookup "completion" final == some "complete")) incomplete
  samples ← integer final "samples"
  raise_if (not (samples == pos 200)) final_samples
  tasks ← integer final "tasks"
  raise_if (tasks == pos 0) no_tasks
  missed ← integer final "missed_intervals"
  raise_if (not (missed == pos 0)) missed_intervals
  flags ← integer final "fault_flags"
  raise_if (not (flags == pos 0)) final_fault

-- The bytes of the lines, each with its line feed.
abbrev pub canonical : List String → List ℕ
canonical lines = flat_map (λ line. codes line ++ 10 ∷ []) lines

abbrev pub all_but_last : List String → List String
all_but_last [] = []
all_but_last (line ∷ []) = []
all_but_last (line ∷ next ∷ lines) = line ∷ all_but_last (next ∷ lines)

-- The tests on the dump, and the number of tasks.
unfoldable pub check_dump : List String → Fields → Result TelemetryError (Unit {0})
check_dump lines dump = do
  count ← integer dump "record_count"
  raise_if (not (count == pos (length (all_but_last lines)))) record_count
  crc ← integer dump "crc32"
  raise_if (not (crc == pos (crc32 (canonical (all_but_last lines))))) crc_mismatch

unfoldable pub check_tasks : List Fields → Fields → Result TelemetryError (Unit {0})
check_tasks tasks final =
    integer final "tasks" >>= λ n. raise_if (not (pos (length tasks) == n)) task_count
