-- ===== src/Board/Log.antt =====
-- `validate_log`. The lines of the log are an argument; a crash marker has no line break, so it
-- stands in the log when it stands in a line.
use qos_extended_mros2_esp.Base.{
  String, Bool, not, ◌||◌, Option, none, some, List, [], ◌∷◌, ◌++◌, length, any, eqb, if◌then◌else◌,
  string_eq, option_eq, ◌==◌,
}
use qos_extended_mros2_esp.Base.Int.{ℤ, pos, ◌+ℤ◌, ◌*ℤ◌, leb_ℤ, min_ℤ, int_eq}
use qos_extended_mros2_esp.Base.Dict.{lookup}
use qos_extended_mros2_esp.Base.Text.{starts_with, lower}
use qos_extended_mros2_esp.Board.Marker.{
  Fields, Errors, when, joined, integer_errors, markers, post_final, config_count, final_count,
  markers_after_final, crash_marker, config_field, final_field, unsupported_schema, final_status,
  timing_background, wrong_capacity, attempts_unreconciled, bytes_unreconciled, nonpositive_heap,
  heap_corrupted, unsupported_kind,
}
use qos_extended_mros2_esp.Board.Cases.{
  Counters, value, observed, is, resource_case, history_case, durability_case, deadline_case,
  lifespan_case, liveliness_case,
}

abbrev pub crash_markers : List String
crash_markers =
    "Guru Meditation" ∷ "abort()" ∷ "LoadProhibited" ∷ "StoreProhibited" ∷ "stack overflow" ∷ []

-- `part in text`
unfoldable pub occurs : String → String → Bool
occurs part String.[] = starts_with String.[] part
occurs part (String.◌∷◌ c s) = starts_with (String.◌∷◌ c s) part || occurs part s

unfoldable pub crash_errors : List String → List String → Errors
crash_errors lines [] = []
crash_errors lines (marker ∷ rest) =
    when (any (λ line. occurs (lower marker) (lower line)) lines) (crash_marker marker)
    ++ crash_errors lines rest

-- `configs[0] if len(configs) == 1 else {}`
abbrev pub only : List Fields → Fields
only (fields ∷ []) = fields
only _ = []

abbrev pub final_names : List String
final_names =
    "attempts" ∷ "accepted" ∷ "rejected" ∷ "allocation_failures" ∷ "history_count" ∷ "history_bytes"
    ∷ "sample_bytes" ∷ "heap_before" ∷ "heap_after" ∷ "minimum_free_heap" ∷ "stack_high_watermark"
    ∷ "heap_integrity" ∷ "pressure_pbufs" ∷ "matched" ∷ "recovery_observed" ∷ "app_rx"
    ∷ "reader_received" ∷ "out_of_order_drops" ∷ "first_rx_hash" ∷ "second_rx_hash"
    ∷ "deadline_missed" ∷ "deadline_callbacks" ∷ "deadline_latency_us" ∷ "deadline_latency_ms"
    ∷ "liveliness_lost" ∷ "liveliness_recovered" ∷ "liveliness_lost_callbacks"
    ∷ "liveliness_recovered_callbacks" ∷ "lifespan_drops" ∷ "hold_start_us" ∷ "hold_end_us"
    ∷ "heap_after_pressure" ∷ "boot_epoch" ∷ []

-- The tests on the names, the schema and the status.
unfoldable pub header_errors : Fields → Fields → String → String → Errors
header_errors config final case_id kind = joined (
    when (not (lookup "case_id" config == some case_id)) (config_field "case_id")
    ∷ when (not (lookup "case_id" final == some case_id)) (final_field "case_id")
    ∷ when (not (lookup "kind" config == some kind)) (config_field "kind")
    ∷ when (not (lookup "kind" final == some kind)) (final_field "kind")
    ∷ when (not (lookup "schema" config == some "1") || not (lookup "schema" final == some "1"))
        unsupported_schema
    ∷ when (not (lookup "status" final == some "PASS")) final_status
    ∷ [])

-- `attempts == accepted + rejected + allocation_failures`
unfoldable pub reconciles : Counters → Bool
reconciles c = c.attempts == c.accepted +ℤ c.rejected +ℤ c.allocation_failures

unfoldable pub expected_capacity : String → ℤ
expected_capacity kind = if starts_with kind "resource_" then pos 100 else pos 40

-- The tests that every kind has.
unfoldable pub accounting_errors : Fields → Fields → String → Errors
accounting_errors config final kind = joined (
    when (not (is config "monitor_period_ms" (pos 5)) || not (is config "tick_hz" (pos 1000)))
      timing_background
    ∷ when (not (is config "history_capacity" (expected_capacity kind))) wrong_capacity
    ∷ when (not (reconciles (observed final))) attempts_unreconciled
    ∷ when
        (leb_ℤ (value final "sample_bytes") (pos 0)
          || not (
              value final "history_bytes"
              == value final "history_count" *ℤ value final "sample_bytes"))
        bytes_unreconciled
    ∷ when
        (leb_ℤ
          (min_ℤ (value final "heap_before") (
            min_ℤ (value final "heap_after")
              (min_ℤ (value final "minimum_free_heap") (value final "stack_high_watermark"))))
          (pos 0))
        nonpositive_heap
    ∷ when (not (is final "heap_integrity" (pos 1))) heap_corrupted
    ∷ [])

abbrev pub or_case : Option Errors → Option Errors → Option Errors
or_case (some errors) later = some errors
or_case none later = later

-- The chain of `elif`.
unfoldable pub case_of : String → ℤ → Fields → Fields → Option Errors
case_of kind limit config final =
    let capacity = value config "history_capacity" in
    or_case (resource_case kind limit capacity final) (
      or_case (history_case kind limit capacity final) (
        or_case (durability_case kind limit capacity config final) (
          or_case (deadline_case kind final)
            (or_case (lifespan_case kind final) (liveliness_case kind final)))))

unfoldable pub case_errors : String → ℤ → Fields → Fields → Errors
case_errors kind limit config final = elim (case_of kind limit config final) [
  | none ↦ unsupported_kind ∷ []
  | some errors ↦ errors
]

-- The tests on the markers that a log has.
unfoldable pub marker_errors : List String → Errors
marker_errors lines =
    let configs = length (markers "MECH_BOARD_CONFIG" lines) in
    let finals = length (markers "MECH_BOARD_FINAL" lines) in
    joined (
      when (not (eqb configs 1)) (config_count configs)
      ∷ (if eqb finals 1
          then when (not (eqb (post_final lines) 0)) (markers_after_final (post_final lines))
          else final_count finals ∷ [])
      ∷ crash_errors lines crash_markers
      ∷ [])

-- `errors` of the report; the status is PASS when there are none.
unfoldable pub validate_log : List String → String → String → ℤ → Errors
validate_log lines case_id kind sample_limit =
    let config = only (markers "MECH_BOARD_CONFIG" lines) in
    let final = only (markers "MECH_BOARD_FINAL" lines) in
    joined (
      marker_errors lines
      ∷ header_errors config final case_id kind
      ∷ integer_errors final final_names
      ∷ integer_errors config ("history_capacity" ∷ "monitor_period_ms" ∷ "tick_hz" ∷ [])
      ∷ accounting_errors config final kind
      ∷ case_errors kind sample_limit config final
      ∷ [])
