-- ===== src/Compare/Run.antt =====
-- The tests of `parse_compare_serial` on the records of a log, and its report.
use qos_extended_mros2_esp.Base.{
  ℕ, String, Bool, true, false, not, ◌&&◌, ◌||◌, Option, none, some, List, [], ◌∷◌, ◌++◌, length,
  ◌==◌, contains, string_eq, option_eq, nat_eq, if◌then◌else◌,
}
use qos_extended_mros2_esp.Base.Int.{ℤ, pos, negsuc, ◌+ℤ◌, ltb_ℤ, leb_ℤ, floor_div, int_eq}
use qos_extended_mros2_esp.Base.Dict.{lookup, values}
use qos_extended_mros2_esp.Base.Order.{sort_with}
use qos_extended_mros2_esp.Compare.Serial.{
  Fields, system_order, firmware_fatal, ready_negative, resource_heap_nonpositive,
  final_system_mismatch, final_rx_samples_mismatch, final_rtt_count_mismatch, final_ready_mismatch,
  session_ready_order, publish_failures, final_mismatch, final_stat_mismatch, record_count, Errors,
  when, joined, integer, Entry, records_from, ByType, group_from, system_errors, entries,
  last_entry, count_errors, required_once, expected_config, config_errors, Rtts, samples_from,
}

-- `final_values`
pub record FinalValues : Type 0 where
  pub tx : ℤ
  pub rx : ℤ
  pub samples : ℤ
  pub min_us : ℤ
  pub avg_us : ℤ
  pub max_us : ℤ
  pub ready_ms : ℤ
  pub payload_bytes : ℤ
  pub period_ms : ℤ
  pub grace_ms : ℤ

-- `_integer` on each key in turn, with the errors.
unfoldable pub integer_errors : Fields → List String → Errors
integer_errors fields [] = []
integer_errors fields (key ∷ keys) = (integer fields key).1 ++ integer_errors fields keys

abbrev pub final_keys : List String
final_keys =
    "tx" ∷ "rx" ∷ "samples" ∷ "min_us" ∷ "avg_us" ∷ "max_us" ∷ "ready_ms" ∷ "payload_bytes"
    ∷ "period_ms" ∷ "grace_ms" ∷ []

unfoldable pub final_values : Fields → FinalValues
final_values final = record {
  tx = (integer final "tx").0;
  rx = (integer final "rx").0;
  samples = (integer final "samples").0;
  min_us = (integer final "min_us").0;
  avg_us = (integer final "avg_us").0;
  max_us = (integer final "max_us").0;
  ready_ms = (integer final "ready_ms").0;
  payload_bytes = (integer final "payload_bytes").0;
  period_ms = (integer final "period_ms").0;
  grace_ms = (integer final "grace_ms").0;
}

-- `min(values) if values else 0`, and the like.
unfoldable pub min_from : ℤ → List ℤ → ℤ
min_from least [] = least
min_from least (x ∷ xs) = min_from (if ltb_ℤ x least then x else least) xs

unfoldable pub max_from : ℤ → List ℤ → ℤ
max_from greatest [] = greatest
max_from greatest (x ∷ xs) = max_from (if ltb_ℤ greatest x then x else greatest) xs

unfoldable pub expected_min : List ℤ → ℤ
expected_min [] = pos 0
expected_min (x ∷ xs) = min_from x xs

unfoldable pub expected_max : List ℤ → ℤ
expected_max [] = pos 0
expected_max (x ∷ xs) = max_from x xs

unfoldable pub sum_ℤ : List ℤ → ℤ
sum_ℤ [] = pos 0
sum_ℤ (x ∷ xs) = x +ℤ sum_ℤ xs

unfoldable pub expected_average : List ℤ → ℤ
expected_average [] = pos 0
expected_average (x ∷ xs) = floor_div (sum_ℤ (x ∷ xs)) (pos (length (x ∷ xs)))

-- The tests on the final record.
unfoldable pub final_errors : FinalValues → Rtts → ℤ → Errors
final_errors v rtts ready_ms = joined (
    when (not (v.tx == pos 40)) (final_mismatch "tx")
    ∷ when (not (v.payload_bytes == pos 64)) (final_mismatch "payload_bytes")
    ∷ when (not (v.period_ms == pos 500)) (final_mismatch "period_ms")
    ∷ when (not (v.grace_ms == pos 5000)) (final_mismatch "grace_ms")
    ∷ when (not (v.rx == v.samples)) final_rx_samples_mismatch
    ∷ when (not (v.samples == pos (length rtts))) final_rtt_count_mismatch
    ∷ when (not (v.ready_ms == ready_ms)) final_ready_mismatch
    ∷ when (not (v.min_us == expected_min (values rtts))) (final_stat_mismatch "min_us")
    ∷ when (not (v.avg_us == expected_average (values rtts))) (final_stat_mismatch "avg_us")
    ∷ when (not (v.max_us == expected_max (values rtts))) (final_stat_mismatch "max_us")
    ∷ [])

-- The session of micro-ROS: the value of `session_ms`, and the errors.
unfoldable pub session_of : List (ℕ × Fields) → ℤ → ℤ × Errors
session_of [] ready_ms = (negsuc 0, record_count "COMPARE_SESSION" 0 ∷ [])
session_of ((line, fields) ∷ []) ready_ms =
    let (session_ms, wrong) = integer fields "established_ms" in
    (
      session_ms,
      wrong
          ++ when
              (ltb_ℤ session_ms (pos 0) || (leb_ℤ (pos 0) ready_ms && ltb_ℤ ready_ms session_ms))
              session_ready_order,
    )
session_of (one ∷ other ∷ more) ready_ms =
    (negsuc 0, record_count "COMPARE_SESSION" (length (one ∷ other ∷ more)) ∷ [])

-- The branch on `microros`.
unfoldable pub session : String → ByType → Fields → ℤ → Option ℤ × Errors
session system by_type final ready_ms =
    if system == "microros"
    then (let (session_ms, wrong) = session_of (entries "COMPARE_SESSION" by_type) ready_ms in
        let (failures, no_failures) = integer final "publish_failures" in
        (
          some session_ms,
          wrong ++ (no_failures ++ when (not (failures == pos 0)) publish_failures),
        ))
    else (none, [])

-- The report. `errors` lists them in the order in which they are found, each as often.
pub record Report : Type 0 where
  pub accepted : Bool
  pub errors : Errors
  pub system : String
  pub ready_ms : ℤ
  pub session_ms : Option ℤ
  pub free_heap_bytes : ℤ
  pub tx : ℤ
  pub rx : ℤ
  pub samples : ℤ
  pub rtts_us : List (ℤ × ℤ)
  pub final : Fields

abbrev pub is_nil {ℓ} : {A : Type ℓ} → List A → Bool
is_nil [] = true
is_nil (x ∷ xs) = false

abbrev pub sequence_le : ℤ × ℤ → ℤ × ℤ → Bool
sequence_le a b = leb_ℤ a.0 b.0

-- The part that follows the grouping of the records.
unfoldable pub report_of : String → List Entry → ByType → Report
report_of system records by_type =
    let config = (last_entry 0 "COMPARE_CONFIG" by_type).1 in
    let (ready_ms, no_ready) = integer (last_entry 0 "COMPARE_READY" by_type).1 "ready_ms" in
    let (free_heap_bytes, no_heap) =
      integer (last_entry 0 "COMPARE_RESOURCE" by_type).1 "free_heap_bytes" in
    let final_line = (last_entry 1_000_000_000 "COMPARE_FINAL" by_type).0 in
    let (rtts, wrong) = samples_from final_line [] (entries "COMPARE_RTT" by_type) in
    let final = (last_entry 0 "COMPARE_FINAL" by_type).1 in
    let v = final_values final in
    let (session_ms, no_session) = session system by_type final ready_ms in
    let errors = joined (
      system_errors system records
      ∷ when (not (is_nil (entries "COMPARE_FATAL" by_type))) firmware_fatal
      ∷ count_errors by_type required_once
      ∷ config_errors config (expected_config system)
      ∷ no_ready
      ∷ when (ltb_ℤ ready_ms (pos 0)) ready_negative
      ∷ no_heap
      ∷ when (leb_ℤ free_heap_bytes (pos 0)) resource_heap_nonpositive
      ∷ wrong
      ∷ integer_errors final final_keys
      ∷ when (not (lookup "system" final == some system)) final_system_mismatch
      ∷ final_errors v rtts ready_ms
      ∷ no_session
      ∷ []) in
    record {
      accepted = is_nil errors;
      errors = errors;
      system = system;
      ready_ms = ready_ms;
      session_ms = session_ms;
      free_heap_bytes = free_heap_bytes;
      tx = v.tx;
      rx = v.rx;
      samples = v.samples;
      rtts_us = sort_with sequence_le rtts;
      final = final;
    }

-- `none` is the `ValueError` of an unknown system.
unfoldable pub parse_compare_serial : List String → String → Option Report
parse_compare_serial lines expected_system =
    let records = records_from 1 lines in
    if contains system_order expected_system
    then some (report_of expected_system records (group_from [] records))
    else none
