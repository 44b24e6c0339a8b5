-- ===== src/Board/Cases.antt =====
-- The numbers of the final record, and the tests of `validate_log` that depend on the kind.
use qos_extended_mros2_esp.Base.{
  ◌/◌, String, Bool, false, not, ◌&&◌, ◌||◌, Option, none, some, [], ◌∷◌, if◌then◌else◌, string_eq,
  option_eq, ◌==◌,
}
use qos_extended_mros2_esp.Base.Int.{ℤ, pos, ◌+ℤ◌, ◌-ℤ◌, ◌*ℤ◌, leb_ℤ, ltb_ℤ, min_ℤ, int_eq}
use qos_extended_mros2_esp.Base.Dict.{lookup}
use qos_extended_mros2_esp.Base.Text.{starts_with}
use qos_extended_mros2_esp.Board.Marker.{
  Fields, Errors, when, joined, integer, sample_bound, sample_reject, byte_bound,
  allocation_failure, resource_recovery, pressure, keep_last, keep_all, duplicate_delivery,
  gap_repair, epoch_transition, pbuf_release, volatile_late, replay_window, epoch_not_nvs,
  no_persistent_reset, replay_depth, fragmented_replay, deadline_event, deadline_boundary,
  deadline_repeated, deadline_recovery, lifespan_hold, lifespan_drops, lifespan_history,
  startup_transition, loss_transition, recovery_transition, infinite_transition,
}

-- The five counters that the cases compare.
pub record Counters : Type 0 where
  pub attempts : ℤ
  pub accepted : ℤ
  pub rejected : ℤ
  pub allocation_failures : ℤ
  pub history_count : ℤ

abbrev pub value : Fields → String → ℤ
value fields name = (integer fields name).0

unfoldable pub observed : Fields → Counters
observed final = record {
  attempts = value final "attempts";
  accepted = value final "accepted";
  rejected = value final "rejected";
  allocation_failures = value final "allocation_failures";
  history_count = value final "history_count";
}

-- The first four counters, which some cases compare alone, and all five.
unfoldable pub same_attempts : Counters → Counters → Bool
same_attempts a b =
    a.attempts == b.attempts
    && a.accepted == b.accepted
    && a.rejected == b.rejected
    && a.allocation_failures == b.allocation_failures

unfoldable pub same_counters : Counters → Counters → Bool
same_counters a b = same_attempts a b && a.history_count == b.history_count

abbrev pub counters : ℤ → ℤ → ℤ → ℤ → ℤ → Counters
counters a b c d e = record {
  attempts = a;
  accepted = b;
  rejected = c;
  allocation_failures = d;
  history_count = e;
}

-- The tuple `expected`. Where the code compares four counters, the fifth is that of `observed`.
unfoldable pub expected_counters : String → ℤ → ℤ → Fields → Option Counters
expected_counters kind limit capacity final =
    let any_count = value final "history_count" in
    if kind == "resource_sample_bound"
    then some (counters limit limit (pos 0) (pos 0) limit)
    else if kind == "resource_sample_reject"
    then some (counters (limit +ℤ pos 1) limit (pos 1) (pos 0) limit)
    else if kind == "resource_byte_bound"
    then some (counters (pos 3) (pos 2) (pos 1) (pos 0) (pos 2))
    else if kind == "resource_alloc_fail"
    then some (counters (pos 1) (pos 0) (pos 0) (pos 1) (pos 0))
    else if kind == "resource_recovery"
    then some (counters (limit +ℤ pos 2) (limit +ℤ pos 1) (pos 1) (pos 0) any_count)
    else if kind == "resource_no_corruption"
    then some (counters (limit +ℤ pos 20) limit (pos 20) (pos 0) limit)
    else if kind == "history_keep_last_order"
    then some (counters (pos 5) (pos 5) (pos 0) (pos 0) (pos 3))
    else if kind == "history_keep_all_bound"
    then some (counters (capacity +ℤ pos 1) capacity (pos 1) (pos 0) capacity)
    else if kind == "history_pbuf_release"
    then some (counters (pos 5) (pos 5) (pos 0) (pos 0) (pos 0))
    else if kind == "durability_volatile_late"
    then some (counters (pos 4) (pos 4) (pos 0) (pos 0) any_count)
    else if kind == "durability_tl_order" || kind == "durability_tl_epoch"
    then some (counters (pos 5) (pos 5) (pos 0) (pos 0) (pos 3))
    else if kind == "durability_tl_depth"
    then some (counters (pos 5) (pos 5) (pos 0) (pos 0) (pos 2))
    else if kind == "durability_frag_capability"
    then some (counters (pos 1) (pos 1) (pos 0) (pos 0) (pos 1))
    else none

-- `observed != expected`
unfoldable pub differs : String → ℤ → ℤ → Fields → Bool
differs kind limit capacity final = elim (expected_counters kind limit capacity final) [
  | none ↦ false
  | some expected ↦ not (same_counters (observed final) expected)
]

abbrev pub is : Fields → String → ℤ → Bool
is final name n = value final name == n

-- `value < n`
abbrev pub below : Fields → String → ℤ → Bool
below final name n = ltb_ℤ (value final name) n

-- `not low <= value <= high`
abbrev pub outside : ℤ → ℤ → ℤ → Bool
outside low n high = not (leb_ℤ low n && leb_ℤ n high)

abbrev pub unmatched : Fields → Bool
unmatched final = not (is final "matched" (pos 1))

unfoldable pub resource_case : String → ℤ → ℤ → Fields → Option Errors
resource_case kind limit capacity final =
    let wrong = differs kind limit capacity final in
    if kind == "resource_sample_bound"
    then some (when wrong sample_bound)
    else if kind == "resource_sample_reject"
    then some (when wrong sample_reject)
    else if kind == "resource_byte_bound"
    then some (
        when (wrong || not (value final "history_bytes" == (value final "sample_bytes" *ℤ pos 2)))
          byte_bound)
    else if kind == "resource_alloc_fail"
    then some (when (wrong || leb_ℤ (value final "pressure_pbufs") (pos 0)) allocation_failure)
    else if kind == "resource_recovery"
    then some (
        when (wrong || unmatched final || not (is final "recovery_observed" (pos 1)))
          resource_recovery)
    else if kind == "resource_no_corruption"
    then some (when wrong pressure)
    else none

unfoldable pub history_case : String → ℤ → ℤ → Fields → Option Errors
history_case kind limit capacity final =
    let wrong = differs kind limit capacity final in
    let first_hash = value final "first_rx_hash" in
    let second_hash = value final "second_rx_hash" in
    if kind == "history_keep_last_order"
    then some (when (wrong || unmatched final) keep_last)
    else if kind == "history_keep_all_bound"
    then some (when wrong keep_all)
    else if kind == "history_duplicate_once"
    then some (
        when
          (unmatched final
            || not (is final "app_rx" (pos 1))
            || below final "reader_received" (pos 2)
            || below final "out_of_order_drops" (pos 1))
          duplicate_delivery)
    else if kind == "history_gap_safe"
    then some (
        when
          (unmatched final
            || below final "app_rx" (pos 2)
            || below final "out_of_order_drops" (pos 1))
          gap_repair)
    else if kind == "history_epoch_reset"
    then some (
        when
          (unmatched final
            || not (is final "recovery_observed" (pos 1))
            || not (is final "app_rx" (pos 2))
            || leb_ℤ (min_ℤ first_hash second_hash) (pos 0)
            || first_hash == second_hash)
          epoch_transition)
    else if kind == "history_pbuf_release"
    then some (
        when
          (wrong
            || unmatched final
            || not (is final "recovery_observed" (pos 1))
            || leb_ℤ (value final "heap_after_pressure") (pos 0)
            || leb_ℤ (value final "heap_after") (value final "heap_after_pressure"))
          pbuf_release)
    else none

unfoldable pub durability_case : String → ℤ → ℤ → Fields → Fields → Option Errors
durability_case kind limit capacity config final =
    let wrong = differs kind limit capacity final in
    if kind == "durability_volatile_late"
    then some (when (wrong || unmatched final) volatile_late)
    else if kind == "durability_tl_order" || kind == "durability_tl_epoch"
    then some (
        joined (
          when (wrong || unmatched final) replay_window
          ∷ when
              (kind == "durability_tl_epoch"
                && not (lookup "boot_epoch_store" config == some "nvs"))
              epoch_not_nvs
          ∷ when (kind == "durability_tl_epoch" && below final "boot_epoch" (pos 2))
              no_persistent_reset
          ∷ []))
    else if kind == "durability_tl_depth"
    then some (when (wrong || unmatched final) replay_depth)
    else if kind == "durability_frag_capability"
    then some (
        when (wrong || unmatched final || leb_ℤ (value final "sample_bytes") (pos 100))
          fragmented_replay)
    else none

unfoldable pub deadline_case : String → Fields → Option Errors
deadline_case kind final =
    let latency = value final "deadline_latency_ms" in
    let upper = if kind == "deadline_polling" then 65000 else 70000 in
    if kind == "deadline_disabled"
    then some (
        when
          (unmatched final
            || not (is final "app_rx" (pos 1))
            || not (is final "deadline_missed" (pos 0))
            || not (is final "deadline_callbacks" (pos 0)))
          deadline_event)
    else if kind == "deadline_boundary" || kind == "deadline_polling"
    then some (
        when
          (unmatched final
            || not (is final "app_rx" (pos 1))
            || not (is final "deadline_missed" (pos 1))
            || not (is final "deadline_callbacks" (pos 1))
            || outside (pos 50) latency (pos (upper / 1000)))
          deadline_boundary)
    else if kind == "deadline_repeated"
    then some (
        when
          (unmatched final
            || not (is final "app_rx" (pos 1))
            || not (is final "deadline_missed" (pos 3))
            || not (is final "deadline_callbacks" (pos 3)))
          deadline_repeated)
    else if kind == "deadline_recovery"
    then some (
        when
          (unmatched final
            || not (is final "recovery_observed" (pos 1))
            || not (is final "app_rx" (pos 2))
            || not (is final "deadline_missed" (pos 2))
            || not (is final "deadline_callbacks" (pos 2))
            || outside (pos 50) latency (pos 70))
          deadline_recovery)
    else none

unfoldable pub lifespan_case : String → Fields → Option Errors
lifespan_case kind final =
    let hold = value final "hold_end_us" -ℤ value final "hold_start_us" in
    let expires = kind == "lifespan_expired" || kind == "lifespan_reconnect" in
    let expected_hold = if expires then pos 150000 else pos 100000 in
    let expected_drops = if expires then pos 1 else pos 0 in
    if starts_with kind "lifespan_"
    then some (
        joined (
          when
            (unmatched final
              || not (is final "attempts" (pos 1))
              || not (is final "accepted" (pos 1))
              || not (is final "rejected" (pos 0))
              || not (is final "allocation_failures" (pos 0))
              || outside expected_hold hold (expected_hold +ℤ pos 20000))
            lifespan_hold
          ∷ when (not (is final "lifespan_drops" expected_drops)) lifespan_drops
          ∷ when (expected_drops == pos 1 && not (is final "history_count" (pos 0)))
              lifespan_history
          ∷ []))
    else none

unfoldable pub liveliness_case : String → Fields → Option Errors
liveliness_case kind final =
    if kind == "liveliness_startup"
    then some (
        when
          (not (is final "matched" (pos 0))
            || not (is final "app_rx" (pos 0))
            || not (is final "liveliness_lost" (pos 0))
            || not (is final "liveliness_recovered" (pos 0)))
          startup_transition)
    else if kind == "liveliness_loss_once" || kind == "liveliness_no_duplicate"
    then some (
        when
          (unmatched final
            || not (is final "app_rx" (pos 1))
            || not (is final "liveliness_lost" (pos 1))
            || not (is final "liveliness_recovered" (pos 0))
            || not (is final "liveliness_lost_callbacks" (pos 1))
            || not (is final "liveliness_recovered_callbacks" (pos 0)))
          loss_transition)
    else if kind == "liveliness_recovery_once"
    then some (
        when
          (unmatched final
            || not (is final "recovery_observed" (pos 1))
            || below final "app_rx" (pos 1)
            || not (is final "liveliness_lost" (pos 1))
            || not (is final "liveliness_recovered" (pos 1))
            || not (is final "liveliness_lost_callbacks" (pos 1))
            || not (is final "liveliness_recovered_callbacks" (pos 1)))
          recovery_transition)
    else if kind == "liveliness_infinite"
    then some (
        when
          (unmatched final
            || not (is final "app_rx" (pos 1))
            || not (is final "liveliness_lost" (pos 0))
            || not (is final "liveliness_recovered" (pos 0)))
          infinite_transition)
    else none
