-- ===== src/Telemetry/Raw.antt =====
-- The first part of `validate`: the raw lines, their records, and the records of which there is one.
use qos_extended_mros2_esp.Base.{
  ℕ, ◌-◌, ◌+◌, String, Bool, false, not, ◌&&◌, ◌||◌, Option, none, some, List, [], ◌∷◌, filter, any,
  length, take, drop, leb, eqb, ◌==◌, option_eq, string_eq, nat_eq, if◌then◌else◌,
}
use qos_extended_mros2_esp.Base.Fields.{Fields}
use qos_extended_mros2_esp.Base.Int.{int_eq}
use qos_extended_mros2_esp.Base.Result.{Result, ok, err, ◌>>=◌, ◌>>◌, raise_if}
use qos_extended_mros2_esp.Base.Text.{codes, starts_with}
use qos_extended_mros2_esp.Telemetry.Record.{
  TelemetryError, smoke_error, raw_markers, uart_activity, family_count, decode_ascii, each,
}
use qos_extended_mros2_esp.Telemetry.Contract.{single}

-- The indices of the lines with a prefix, from an index on.
unfoldable pub indices_from : ℕ → String → List String → List ℕ
indices_from n prefix [] = []
indices_from n prefix (raw ∷ raws) =
    let rest = indices_from (n + 1) prefix raws in if starts_with raw prefix then n ∷ rest else rest

-- `raw.strip()` of bytes is not empty.
unfoldable pub is_activity : List ℕ → Bool
is_activity [] = false
is_activity (c ∷ cs) = not ((leb 9 c && leb c 13) || eqb c 32) || is_activity cs

-- `between`
unfoldable pub activity_between : ℕ → ℕ → List String → List String
activity_between config start raw_lines =
    filter (λ raw. is_activity (codes raw))
      (take (start - (config + 1)) (drop (config + 1) raw_lines))

-- The tests on the raw lines.
unfoldable pub check_activity : Option ℕ → Option ℕ → List String → Result TelemetryError (Unit {0})
check_activity (some config) (some start) raw_lines =
    raise_if (not (eqb (length (activity_between config start raw_lines)) 0)) uart_activity
check_activity (some config) none raw_lines = err raw_markers
check_activity none start raw_lines = err raw_markers

unfoldable pub check_raw : List String → Result TelemetryError (Unit {0})
check_raw raw_lines = do
  raise_if (any (λ raw. starts_with raw "BENCH_SMOKE_ERROR") raw_lines) smoke_error
  check_activity (single (indices_from 0 "BENCH_CONFIG " raw_lines))
      (single (indices_from 0 "BENCH_WINDOW_START " raw_lines)) raw_lines

-- `lines`
unfoldable pub bench_lines : List String → Result TelemetryError (List String)
bench_lines raw_lines = each decode_ascii (
    filter (λ raw. starts_with raw "BENCH_" && not (starts_with raw "BENCH_SMOKE_ERROR")) raw_lines)

-- The fields of the records of a family, in order.
unfoldable pub of_family : String → List (String × Fields) → List Fields
of_family family [] = []
of_family family ((name, fields) ∷ records) =
    let rest = of_family family records in if name == family then fields ∷ rest else rest

-- `if families.count(family) != 1: raise ...`, and the fields of that record.
unfoldable pub the_record : String → List (String × Fields) → Result TelemetryError Fields
the_record family records = elim (single (of_family family records)) [
  | none ↦ err (family_count family)
  | some fields ↦ ok fields
]

-- The records of which there is one.
pub record Marks : Type 0 where
  pub config : Fields
  pub start : Fields
  pub end : Fields
  pub final : Fields
  pub dump : Fields

unfoldable pub read_marks : List (String × Fields) → Result TelemetryError Marks
read_marks records = do
  config ← the_record "BENCH_CONFIG" records
  start ← the_record "BENCH_WINDOW_START" records
  end ← the_record "BENCH_WINDOW_END" records
  final ← the_record "BENCH_FINAL" records
  dump ← the_record "BENCH_DUMP_END" records
  ok (record { config = config; start = start; end = end; final = final; dump = dump })
