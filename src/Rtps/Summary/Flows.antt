-- ===== src/Rtps/Summary/Flows.antt =====
-- `summarize_flow`, and the selections that it shares with `reconstruct_nack_links`.
use qos_extended_mros2_esp.Base.{
  ℕ, ◌-◌, Bool, true, false, ◌&&◌, none, some, List, [], ◌∷◌, map, ◌==◌, contains, length, filter,
  flat_map, sum, max_or_zero, ltb, if◌then◌else◌, option_eq, nat_eq,
}
use qos_extended_mros2_esp.Base.Int.{ℤ, int_eq}
use qos_extended_mros2_esp.Base.Dict.{Dict, values, push}
use qos_extended_mros2_esp.Rtps.Records.{
  Flow, EventType, data_event, heartbeat, acknack, TaggedEvent, RunSummary, flow_eq, event_type_eq,
}
use qos_extended_mros2_esp.Rtps.Times.{
  sort_times, median_or_blank, max_or_blank, intervals, first_delay, span,
}

-- `event["run_id"] == run_id and event["flow"] == flow`
unfoldable pub in_run : ℕ → Flow → TaggedEvent → Bool
in_run run_id flow e = e.run_id == some run_id && e.event.flow == flow

unfoldable pub is_type : EventType → TaggedEvent → Bool
is_type event_type e = e.event.event_type == event_type

-- The body of the loop that fills `by_sequence`.
unfoldable pub with_time : Dict ℤ (List ℕ) → TaggedEvent → Dict ℤ (List ℕ)
with_time d e = elim e.event.sequence [ none ↦ d | some sequence ↦ push sequence e.event.time d ]

-- The loop: the times of DATA that has a sequence number.
unfoldable pub by_sequence_from : Dict ℤ (List ℕ) → List TaggedEvent → Dict ℤ (List ℕ)
by_sequence_from d [] = d
by_sequence_from d (e ∷ data_events) = by_sequence_from (with_time d e) data_events

-- `times.sort()` in every entry
unfoldable pub sort_each : Dict ℤ (List ℕ) → Dict ℤ (List ℕ)
sort_each [] = []
sort_each ((sequence, times) ∷ d) = (sequence, sort_times times) ∷ sort_each d

-- `len(times) > 1`
abbrev pub is_repeated : List ℕ → Bool
is_repeated times = ltb 1 (length times)

-- `bool(event["requested_sequences"])`
abbrev pub has_requests : TaggedEvent → Bool
has_requests e = elim e.event.requested_sequences [ [] ↦ false | s ∷ ss ↦ true ]

-- `len(set(xs))`
unfoldable pub distinct : List ℤ → List ℤ
distinct [] = []
distinct (x ∷ xs) = let rest = distinct xs in if contains xs x then rest else x ∷ rest

unfoldable pub of_type : EventType → ℕ → Flow → List TaggedEvent → List TaggedEvent
of_type event_type run_id flow events =
    filter (is_type event_type) (filter (in_run run_id flow) events)

unfoldable pub sequence_times : List TaggedEvent → List (List ℕ)
sequence_times data_events = values (sort_each (by_sequence_from [] data_events))

unfoldable pub summarize_flow : List TaggedEvent → ℕ → Flow → RunSummary
summarize_flow events run_id flow =
    let data_events = of_type data_event run_id flow events in
    let heartbeats = of_type heartbeat run_id flow events in
    let acknacks = of_type acknack run_id flow events in
    let times_of = sequence_times data_events in
    let repeated = filter is_repeated times_of in
    let requested = flat_map (λ (e : TaggedEvent). e.event.requested_sequences) acknacks in
    record {
      run_id = run_id;
      flow = flow;
      data_observations = length data_events;
      data_unique_sequences = length times_of;
      data_duplicate_observations = sum (map (λ (ts : List ℕ). length ts - 1) repeated);
      data_repeated_sequences = length repeated;
      data_max_observations_per_sequence = max_or_zero (map length times_of);
      first_retry_delay_median = median_or_blank (map first_delay repeated);
      retry_span_max = max_or_blank (map span repeated);
      heartbeat_observations = length heartbeats;
      heartbeat_interval_median =
          median_or_blank
            (intervals (sort_times (map (λ (e : TaggedEvent). e.event.time) heartbeats)));
      acknack_observations = length acknacks;
      acknack_with_requests = length (filter has_requests acknacks);
      requested_sequence_observations = length requested;
      requested_unique_sequences = length (distinct requested);
    }
