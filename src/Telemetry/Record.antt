-- ===== src/Telemetry/Record.antt =====
-- The records of the log. A line is a text whose code points are the bytes of the line, without
-- the line's end; `decode("ascii")` refuses those above 127.
use qos_extended_mros2_esp.Base.{
  ℕ, String, Bool, true, false, ◌&&◌, ◌||◌, Option, none, some, List, [], ◌∷◌, drop, head?, leb,
  eqb, if◌then◌else◌,
}
use qos_extended_mros2_esp.Base.Fields.{Fields, fields_from, integer_in}
use qos_extended_mros2_esp.Base.Int.{ℤ}
use qos_extended_mros2_esp.Base.Result.{Result, ok, err, ◌>>=◌}
use qos_extended_mros2_esp.Base.Text.{codes, words, starts_with, strip_prefix}
use qos_extended_mros2_esp.Probe.{ProbeError}

-- One constructor for each `raise`, for `decode`, for `int`, and for the errors of the probe.
pub data TelemetryError : Type 0 where
  not_a_record malformed_token duplicate_field missing_field bad_integer : TelemetryError
  not_ascii wrong_prefix empty_minimum : TelemetryError
  rate_not_divisor contract_records text_mismatch : TelemetryError
  delivered_range delivered_mismatch observability_incomplete : TelemetryError
  observability_differs missing_count inversions_range zero_missing missing_runs_range :
      TelemetryError
  zero_delivery mean_mismatch moments_impossible : TelemetryError
  smoke_error raw_markers uart_activity no_records : TelemetryError
  family_count : String → TelemetryError
  dump_not_last run_tokens schemas sequence_gap sample_count sample_indices : TelemetryError
  sample_times sample_fault marker_state start_regress end_regress : TelemetryError
  incomplete final_samples no_tasks missed_intervals final_fault : TelemetryError
  record_count crc_mismatch task_count : TelemetryError
  probe : ProbeError → TelemetryError

-- `[A-Z_]`
abbrev pub is_upper : ℕ → Bool
is_upper c = (leb b'A' c && leb c b'Z') || eqb c b'_'

abbrev pub all_upper : List ℕ → Bool
all_upper [] = true
all_upper (c ∷ cs) = is_upper c && all_upper cs

-- `[A-Z_]+`
abbrev pub some_upper : List ℕ → Bool
some_upper [] = false
some_upper (c ∷ cs) = is_upper c && all_upper cs

-- `RECORD_RE.match(line)`, and its group: what stands before the first white space.
unfoldable pub record_family : String → Option String
record_family line = elim (strip_prefix "BENCH_" line) [
  | none ↦ none
  | some rest ↦ elim (head? (words line)) [
    | none ↦ none
    | some word ↦ elim (strip_prefix "BENCH_" word) [
      | none ↦ none
      | some name ↦ if some_upper (codes name) then some word else none
    ]
  ]
]

unfoldable pub parse_record : String → Result TelemetryError (String × Fields)
parse_record line = elim (record_family line) [
  | none ↦ err not_a_record
  | some family ↦ fields_from malformed_token duplicate_field [] (drop 1 (words line)) >>= λ fields.
      ok (family, fields)
]

unfoldable pub integer : Fields → String → Result TelemetryError ℤ
integer fields key = integer_in missing_field bad_integer fields key

-- The prefix is a text that ends before the blank.
unfoldable pub parse_key_value_record : String → String → Result TelemetryError Fields
parse_key_value_record line prefix_blank =
    if starts_with line prefix_blank
    then fields_from malformed_token duplicate_field [] (drop 1 (words line))
    else err wrong_prefix

-- `raw.decode("ascii")`
abbrev pub all_ascii : List ℕ → Bool
all_ascii [] = true
all_ascii (c ∷ cs) = leb c 127 && all_ascii cs

unfoldable pub decode_ascii : String → Result TelemetryError String
decode_ascii raw = if all_ascii (codes raw) then ok raw else err not_ascii

-- `[f(x) for x in xs]` for an `f` that may raise.
unfoldable pub each {ℓ κ} :
    {A : Type ℓ} {B : Type κ}
    → (A → Result TelemetryError B)
    → List A
    → Result TelemetryError (List B)
each f [] = ok []
each f (x ∷ xs) = let rest = each f xs in f x >>= λ y. rest >>= λ ys. ok (y ∷ ys)
