-- ===== src/Probe/Record.antt =====
-- telemetry_control_probe.py. The texts of the exceptions are dropped.
use qos_extended_mros2_esp.Base.{
  String, Bool, not, ◌&&◌, ◌||◌, Option, none, some, List, [], ◌∷◌, filter, drop, ◌==◌,
  if◌then◌else◌, string_eq, option_eq,
}
use qos_extended_mros2_esp.Base.Int.{ℤ, pos, ◌-ℤ◌, ◌+ℤ◌, ◌*ℤ◌, leb_ℤ, floor_div, int_eq}
use qos_extended_mros2_esp.Base.Dict.{Dict, lookup, insert}
use qos_extended_mros2_esp.Base.Text.{words, partition, starts_with}
use qos_extended_mros2_esp.Base.Number.{int_base_0}
use qos_extended_mros2_esp.Base.Result.{Result, ok, err, ◌>>=◌, ◌>>◌, raise_if}

-- One constructor for each `raise`; `bad_integer` is raised by `int`.
pub data ProbeError : Type 0 where
  malformed_token duplicate_field missing_field bad_integer : ProbeError
  missing_record record_count text_mismatch : ProbeError
  fault_flags_set times_regress window_length idle_range busy_mismatch mean_mismatch : ProbeError

abbrev pub Fields : Type 0
Fields = Dict String String

abbrev pub prefix : String
prefix = "COMPARE_CPU_CONTROL "

abbrev pub min_window_us : ℤ
min_window_us = pos 19_500_000

abbrev pub max_window_us : ℤ
max_window_us = pos 20_500_000

-- The loop of `parse_fields`.
unfoldable pub fields_from : Fields → List String → Result ProbeError Fields
fields_from fields [] = ok fields
fields_from fields (token ∷ tokens) = elim (partition b'=' token) [
  | none ↦ err malformed_token
  | some (key, value) ↦ elim (lookup key fields) [
    | some old ↦ err duplicate_field
    | none ↦ fields_from (insert key value fields) tokens
  ]
]

unfoldable pub parse_fields : String → Result ProbeError Fields
parse_fields line = fields_from [] (drop 1 (words line))

unfoldable pub integer : Fields → String → Result ProbeError ℤ
integer fields key = elim (lookup key fields) [
  | none ↦ err missing_field
  | some text ↦ elim (int_base_0 text) [ none ↦ err bad_integer | some n ↦ ok n ]
]

-- `expected_text`, and the loop over it.
unfoldable pub check_text : Fields → List (String × String) → Result ProbeError (Unit {0})
check_text fields [] = ok tt
check_text fields ((key, expected) ∷ rest) =
    let later = check_text fields rest in
    if lookup key fields == some expected then later else err text_mismatch

-- The integers of a record.
pub record Counters : Type 0 where
  pub start_begin_us : ℤ
  pub end_end_us : ℤ
  pub wall0_us : ℤ
  pub wall1_us : ℤ
  pub idle0_delta_us : ℤ
  pub idle1_delta_us : ℤ
  pub busy0_ppm : ℤ
  pub busy1_ppm : ℤ
  pub busy_mean_ppm : ℤ
  pub fault_flags : ℤ

unfoldable pub read_counters : Fields → Result ProbeError Counters
read_counters fields = do
  start_begin_us ← integer fields "start_begin_us"
  end_end_us ← integer fields "end_end_us"
  wall0_us ← integer fields "wall0_us"
  wall1_us ← integer fields "wall1_us"
  idle0_delta_us ← integer fields "idle0_delta_us"
  idle1_delta_us ← integer fields "idle1_delta_us"
  busy0_ppm ← integer fields "busy0_ppm"
  busy1_ppm ← integer fields "busy1_ppm"
  busy_mean_ppm ← integer fields "busy_mean_ppm"
  fault_flags ← integer fields "fault_flags"
  ok (record {
    start_begin_us = start_begin_us;
    end_end_us = end_end_us;
    wall0_us = wall0_us;
    wall1_us = wall1_us;
    idle0_delta_us = idle0_delta_us;
    idle1_delta_us = idle1_delta_us;
    busy0_ppm = busy0_ppm;
    busy1_ppm = busy1_ppm;
    busy_mean_ppm = busy_mean_ppm;
    fault_flags = fault_flags;
  })

-- The body of the loop over the two cores.
unfoldable pub check_core : ℤ → ℤ → Result ProbeError (Unit {0})
check_core wall_us idle_delta_us = do
  raise_if (not (leb_ℤ min_window_us wall_us && leb_ℤ wall_us max_window_us)) window_length
  raise_if (not (leb_ℤ (pos 0) idle_delta_us && leb_ℤ idle_delta_us wall_us)) idle_range

-- `((wall - idle) * 1_000_000) // wall`
unfoldable pub expected_busy : ℤ → ℤ → ℤ
expected_busy wall_us idle_delta_us =
    floor_div ((wall_us -ℤ idle_delta_us) *ℤ pos 1_000_000) wall_us

unfoldable pub check_counters : Counters → Result ProbeError (Unit {0})
check_counters c = do
  raise_if (not (c.fault_flags == pos 0)) fault_flags_set
  raise_if (leb_ℤ c.end_end_us c.start_begin_us) times_regress
  check_core c.wall0_us c.idle0_delta_us
  check_core c.wall1_us c.idle1_delta_us
  let busy0 = expected_busy c.wall0_us c.idle0_delta_us
  let busy1 = expected_busy c.wall1_us c.idle1_delta_us
  raise_if (not (c.busy0_ppm == busy0) || not (c.busy1_ppm == busy1)) busy_mismatch
  raise_if (not (c.busy_mean_ppm == floor_div (busy0 +ℤ busy1) (pos 2))) mean_mismatch

-- What is returned of a record that passes.
pub record Report : Type 0 where
  pub system : String
  pub telemetry : String
  pub wall0_us : ℤ
  pub wall1_us : ℤ
  pub idle0_delta_us : ℤ
  pub idle1_delta_us : ℤ
  pub busy0_ppm : ℤ
  pub busy1_ppm : ℤ
  pub busy_mean_ppm : ℤ

unfoldable pub report_of : String → String → Counters → Report
report_of system telemetry c = record {
  system = system;
  telemetry = telemetry;
  wall0_us = c.wall0_us;
  wall1_us = c.wall1_us;
  idle0_delta_us = c.idle0_delta_us;
  idle1_delta_us = c.idle1_delta_us;
  busy0_ppm = c.busy0_ppm;
  busy1_ppm = c.busy1_ppm;
  busy_mean_ppm = c.busy_mean_ppm;
}

-- The part that reads the only record.
unfoldable pub validate_record : String → String → String → Result ProbeError (Option Report)
validate_record line system telemetry = do
  fields ← parse_fields line
  check_text fields (("schema", "1") ∷ ("system", system) ∷ ("telemetry", telemetry) ∷ [])
  counters ← read_counters fields
  check_counters counters
  ok (some (report_of system telemetry counters))

-- The lines that begin with the prefix.
abbrev pub records_of : List String → List String
records_of lines = filter (λ line. starts_with line prefix) lines

-- The tests on their number, and the rest.
unfoldable pub validate_records :
    List String → String → String → Bool → Result ProbeError (Option Report)
validate_records [] system telemetry required = if required then err missing_record else ok none
validate_records (line ∷ []) system telemetry required = validate_record line system telemetry
validate_records (line ∷ other ∷ more) system telemetry required = err record_count

unfoldable pub validate_control_probe :
    List String → String → String → Bool → Result ProbeError (Option Report)
validate_control_probe lines system telemetry required =
    validate_records (records_of lines) system telemetry required
