-- ===== src/Tests/BoardRuns.antt =====
-- A board log, validated as validate_seven_qos_mechanism_board_log.py does.
use native.Mathlib.Decide.{ℕ_discrete}
use qos_extended_mros2_esp.Base.{
  ◌<>◌, String, true, some, List, [], ◌∷◌, ◌≡◌, refl, string_eq, option_eq,
}
use qos_extended_mros2_esp.Base.Int.{pos, ◌+ℤ◌, ◌-ℤ◌, ◌*ℤ◌, int_eq}
use qos_extended_mros2_esp.Base.Text.{strip_prefix, words, partition, lower}
use qos_extended_mros2_esp.Base.Number.{int_base_10}
use qos_extended_mros2_esp.Board.{
  Fields, Errors, markers_after_final, crash_marker, when, joined, fields_from, parse_marker,
  integer, integer_errors, markers, count_markers, post_final, observed, same_attempts,
  same_counters, expected_counters, differs, resource_case, history_case, durability_case,
  deadline_case, lifespan_case, liveliness_case, occurs, crash_errors, header_errors, reconciles,
  expected_capacity, accounting_errors, case_of, case_errors, marker_errors, validate_log,
}
use qos_extended_mros2_esp.Board.Laws.{IsAccounted, validate_log-IsAccounted}
use qos_extended_mros2_esp.Board.Counted.{fixes_attempts}
use qos_extended_mros2_esp.Board.Reconciled.{case_of-reconciles}

abbrev config_line : String
config_line =
    "MECH_BOARD_CONFIG schema=1 case_id=H1 kind=history_keep_last_order history_capacity=40 monitor_period_ms=5 tick_hz=1000"

abbrev final_line : String
final_line =
    "MECH_BOARD_FINAL schema=1 case_id=H1 kind=history_keep_last_order status=PASS"
    <> " attempts=5 accepted=5 rejected=0 allocation_failures=0 history_count=3 history_bytes=48 sample_bytes=16"
    <> " heap_before=90000 heap_after=90000 minimum_free_heap=80000 stack_high_watermark=900 heap_integrity=1"
    <> " pressure_pbufs=0 matched=1 recovery_observed=0 app_rx=0 reader_received=0 out_of_order_drops=0"
    <> " first_rx_hash=0 second_rx_hash=0 deadline_missed=0 deadline_callbacks=0 deadline_latency_us=0"
    <> " deadline_latency_ms=0 liveliness_lost=0 liveliness_recovered=0 liveliness_lost_callbacks=0"
    <> " liveliness_recovered_callbacks=0 lifespan_drops=0 hold_start_us=0 hold_end_us=0 heap_after_pressure=0 boot_epoch=1"

abbrev log : List String
log = "boot" ∷ config_line ∷ "MECH_BOARD_SAMPLE seq=1" ∷ final_line ∷ "idle" ∷ []

validated : List String → Errors
unfolding validate_log marker_errors case_errors case_of accounting_errors expected_capacity
    reconciles header_errors crash_errors occurs liveliness_case lifespan_case deadline_case
    durability_case history_case resource_case differs expected_counters same_counters same_attempts
    observed post_final count_markers markers integer_errors integer parse_marker fields_from joined
    when int_base_10 strip_prefix words partition lower ◌+ℤ◌ ◌-ℤ◌ ◌*ℤ◌ int_eq string_eq option_eq
    ℕ_discrete
validated lines = validate_log lines "H1" "history_keep_last_order" (pos 5)

log_passes : validate_log log "H1" "history_keep_last_order" (pos 5) ≡ []
unfolding validated
log_passes = refl

-- A machine marker and a crash behind the final record.
log_fails :
    validated
      ("x" ∷ config_line ∷ final_line ∷ "MECH_BOARD_SAMPLE seq=2" ∷ "ABORT() was called" ∷ [])
    ≡ markers_after_final 1 ∷ crash_marker "abort()" ∷ []
unfolding validated
log_fails = refl

validate_log-IsAccounted_example : IsAccounted log "H1" "history_keep_last_order" (pos 5)
validate_log-IsAccounted_example =
    validate_log-IsAccounted log "H1" "history_keep_last_order" (pos 5) log_passes

-- A sample that expired while it was held.
abbrev expired : Fields
expired =
    ("matched", "1")
    ∷ ("attempts", "1")
    ∷ ("accepted", "1")
    ∷ ("rejected", "0")
    ∷ ("allocation_failures", "0")
    ∷ ("history_count", "0")
    ∷ ("hold_start_us", "1000")
    ∷ ("hold_end_us", "152000")
    ∷ ("lifespan_drops", "1")
    ∷ []

expired_passes : case_of "lifespan_expired" (pos 5) [] expired ≡ some []
unfolding case_of resource_case history_case durability_case deadline_case lifespan_case when joined
    integer int_base_10 strip_prefix ◌-ℤ◌ ◌+ℤ◌ int_eq string_eq ℕ_discrete
expired_passes = refl

expired_fixes : fixes_attempts "lifespan_expired" ≡ true
unfolding strip_prefix string_eq
expired_fixes = refl

case_of-reconciles_example : reconciles (observed expired) ≡ true
case_of-reconciles_example =
    case_of-reconciles "lifespan_expired" (pos 5) [] expired expired_fixes expired_passes
