-- ===== src/Tests/RtpsRuns.antt =====
-- A small capture, analysed as reconstruct_rtps_app_samples.py does.
use qos_extended_mros2_esp.Base.{
  ℕ, suc, ◌+◌, ◌≤◌, ◌<◌, String, true, false, Option, none, some, List, [], ◌∷◌, ◌≡◌, ◌≢◌, ◌↔◌, ◌⊎◌,
  refl, map, length, filter, any, All, arith, string_eq, option_eq, nat_eq, range_from, ◌==◌,
}
use qos_extended_mros2_esp.Base.Int.{ℤ, pos, ◌+ℤ◌, ◌≤ℤ◌, int_eq}
use qos_extended_mros2_esp.Base.Text.{split_on, remove_char}
use qos_extended_mros2_esp.Base.Number.{int_base_10, float_nanos, from_hex}
use qos_extended_mros2_esp.Base.Order.{sort_by}
use qos_extended_mros2_esp.Rtps.Records.{
  Row, board_to_host_app, data_event, heartbeat, acknack, Event, TaggedEvent, Link, flow_eq,
  event_type_eq,
}
use qos_extended_mros2_esp.Rtps.Fields.{
  split_values, parsed_ints, first_int, normalize_guid, endpoint_tuple,
}
use qos_extended_mros2_esp.Rtps.SequenceSet.{
  decode_sequence_set, missing_from, bit_is_set, word_bytes,
}
use qos_extended_mros2_esp.Rtps.SequenceSet.Laws.{
  is_requested, decode_sequence_set-eq-filter, decode_sequence_set_window, InWindow, IsIncreasing,
}
use qos_extended_mros2_esp.Rtps.Classify.{
  classify_row, flow_and_type, event_type_of, same_endpoint, requested_of,
}
use qos_extended_mros2_esp.Rtps.Analyze.{row_of_line, events_of, evidence_of, analyze}
use qos_extended_mros2_esp.Base.Dict.{Dict, lookup}
use qos_extended_mros2_esp.Base.Order.{insert_by}
use native.Mathlib.Decide.{ℕ_discrete}
use qos_extended_mros2_esp.Rtps.Classify.Source.{
  IsEventOf, classify_row-IsEventOf, classify_row_requests,
}
use qos_extended_mros2_esp.Rtps.Runs.{
  is_source, seen_with, first_seen_from, numbered, guid_run_map, run_of, assign_runs,
}
use qos_extended_mros2_esp.Rtps.Runs.Laws.{
  first_seen, guid_run_map_bounds, guid_run_map_total, guid_run_map_order,
}
use qos_extended_mros2_esp.Rtps.Runs.Assignment.{
  run_count, HasRunBelow, IsWriterData, assign_runs_bounds, assign_runs_total,
}
use qos_extended_mros2_esp.Rtps.Summary.{of_type, summarize_flow}
use qos_extended_mros2_esp.Rtps.Summary.Counts.{numbered_data, summarize_flow_counts}
use qos_extended_mros2_esp.Rtps.Links.{reconstruct_nack_links}
use qos_extended_mros2_esp.Rtps.Links.Laws.{length-reconstruct_nack_links}
use qos_extended_mros2_esp.Rtps.Links.Earliest.{times_of, IsLinked, reconstruct_nack_links-IsLinked}
use qos_extended_mros2_esp.Rtps.Condition.{condition_from_path, is_app_link}
use qos_extended_mros2_esp.Rtps.Analyze.Partition.{has_run, evidence_of-partition}
use qos_extended_mros2_esp.Rtps.Analyze.Laws.{raises, evidence_of-requests, analyze_fails}

-- Two numbers of the first word, and a second word that is cut short.
decoded : decode_sequence_set (some (pos 7)) (pos 40) "00:00:00:a0:ff" ≡ some (pos 7 ∷ pos 9 ∷ [])
unfolding decode_sequence_set missing_from bit_is_set word_bytes ◌+ℤ◌
decoded = refl

decode_sequence_set-eq-filter_example :
    decode_sequence_set (some (pos 7)) (pos (suc 39)) "00:00:00:a0:ff"
    ≡ some (
        map
          (λ (i : ℕ). pos 7 +ℤ pos i)
          (filter (is_requested (0 ∷ 0 ∷ 0 ∷ 0xa0 ∷ 0xff ∷ [])) (range_from 0 (suc 39))))
unfolding from_hex remove_char
decode_sequence_set-eq-filter_example =
    decode_sequence_set-eq-filter (pos 7) 39 "00:00:00:a0:ff" (0 ∷ 0 ∷ 0 ∷ 0xa0 ∷ 0xff ∷ []) refl
      refl

decode_sequence_set_window_example :
    All (InWindow (pos 7) (pos 7 +ℤ pos 40)) (pos 7 ∷ pos 9 ∷ [])
    × IsIncreasing (pos 7 ∷ pos 9 ∷ [])
decode_sequence_set_window_example =
    decode_sequence_set_window (pos 7) (pos 40) "00:00:00:a0:ff" decoded

abbrev board : String
board = "10.0.0.2"

abbrev host : String
host = "10.0.0.1"

-- Lines of output: DATA 1, a heartbeat, a request for 1 and 2, DATA 1 again, and one more row
-- that is no event.
abbrev data_line : String
data_line = "1\t0.5\t10.0.0.2\t10.0.0.1\tAA:01\t\t0x15\t0x12\t0x04\t0x01\t0x03\t1"

abbrev heartbeat_line : String
heartbeat_line = "2\t0.6\t10.0.0.2\t10.0.0.1\tAA:01\t\t0x07\t0x12\t0x04\t0x01\t0x03\t1,2\t\t\t\t5"

abbrev request_line : String
request_line =
    "3\t0.7\t10.0.0.1\t10.0.0.2\tbb\tAA:01\t0x06\t0x12\t0x04\t0x01\t0x03\t1\t2\t00:00:00:c0\t9"

abbrev again_line : String
again_line = "4\t0.8\t10.0.0.2\t10.0.0.1\tAA:01\t\t0x15\t0x12\t0x04\t0x01\t0x03\t1"

abbrev other_line : String
other_line = "5\t0.9\t10.0.0.9"

abbrev lines : List String
lines = data_line ∷ heartbeat_line ∷ request_line ∷ again_line ∷ other_line ∷ []

abbrev data_first : Event
data_first = record {
  frame_number = pos 1;
  time = 500_000_000;
  flow = board_to_host_app;
  event_type = data_event;
  source_guid = "aa01";
  destination_guid = "";
  source_ip = board;
  destination_ip = host;
  sequence = some (pos 1);
  last_sequence = some (pos 1);
  acknack_count = none;
  heartbeat_count = none;
  requested_sequences = [];
}

abbrev heartbeat_event : Event
heartbeat_event = record data_first {
  frame_number = pos 2;
  time = 600_000_000;
  event_type = heartbeat;
  last_sequence = some (pos 2);
  heartbeat_count = some (pos 5);
}

abbrev request : Event
request = record data_first {
  frame_number = pos 3;
  time = 700_000_000;
  event_type = acknack;
  source_guid = "bb";
  destination_guid = "aa01";
  source_ip = host;
  destination_ip = board;
  acknack_count = some (pos 9);
  requested_sequences = pos 1 ∷ pos 2 ∷ [];
}

abbrev data_again : Event
data_again = record data_first { frame_number = pos 4; time = 800_000_000 }

abbrev events : List Event
events = data_first ∷ heartbeat_event ∷ request ∷ data_again ∷ []

read_row : String → Row
unfolding row_of_line split_on
read_row = row_of_line

classified : Row → Option (Option Event)
unfolding classify_row float_nanos flow_and_type event_type_of same_endpoint requested_of
    endpoint_tuple normalize_guid parsed_ints first_int split_values split_on int_base_10
    decode_sequence_set missing_from bit_is_set word_bytes string_eq option_eq int_eq ◌+ℤ◌
classified row = classify_row row board host

request_classified : classify_row (row_of_line request_line) board host ≡ some (some request)
unfolding classified read_row ℕ_discrete
request_classified = refl

events_of-lines : events_of (map row_of_line lines) board host ≡ some events
unfolding events_of classified read_row ℕ_discrete
events_of-lines = refl

classify_row-IsEventOf_example : IsEventOf (row_of_line request_line) board host request
classify_row-IsEventOf_example =
    classify_row-IsEventOf (row_of_line request_line) board host request request_classified

classify_row_requests_example :
    (request.event_type ≡ acknack)
    × (base : ℤ) × (request.sequence ≡ some base)
    × IsIncreasing request.requested_sequences
    × All (λ s. base ≤ℤ s) request.requested_sequences
classify_row_requests_example =
    classify_row_requests (row_of_line request_line) board host request request_classified (λ h. cc)

-- A second source, which the capture lists later with an earlier time.
abbrev data_other : Event
data_other = record data_first { source_guid = "aa02"; time = 400_000_000 }

abbrev two_sources : List Event
two_sources = data_first ∷ heartbeat_event ∷ request ∷ data_again ∷ data_other ∷ []

abbrev board_runs : Dict String ℕ
board_runs = guid_run_map two_sources board_to_host_app board data_event

numbering_test :
    (board_runs ≡ ("aa02", 1) ∷ ("aa01", 2) ∷ [])
    × (first_seen board_to_host_app board data_event [] two_sources
        ≡ ("aa01", 500_000_000) ∷ ("aa02", 400_000_000) ∷ [])
unfolding guid_run_map first_seen_from seen_with is_source numbered sort_by insert_by string_eq
    flow_eq event_type_eq
numbering_test = (refl, refl)

lookup_second : lookup "aa01" board_runs ≡ some 2
unfolding string_eq
lookup_second = rw (numbering_test.0) refl

lookup_first : lookup "aa02" board_runs ≡ some 1
unfolding string_eq
lookup_first = rw (numbering_test.0) refl

time_second :
    lookup "aa01" (first_seen board_to_host_app board data_event [] two_sources) ≡ some 500_000_000
unfolding string_eq
time_second = rw (numbering_test.1) refl

time_first :
    lookup "aa02" (first_seen board_to_host_app board data_event [] two_sources) ≡ some 400_000_000
unfolding string_eq
time_first = rw (numbering_test.1) refl

guid_run_map_bounds_example : (1 ≤ 2) × (2 ≤ length board_runs)
guid_run_map_bounds_example =
    guid_run_map_bounds board_to_host_app board data_event two_sources "aa01" 2 lookup_second

guid_run_map_total_example :
    All
      (λ (e : Event).
        is_source board_to_host_app board data_event e ≡ true
        → lookup e.source_guid board_runs ≢ none)
      two_sources
guid_run_map_total_example = guid_run_map_total board_to_host_app board data_event two_sources

guid_run_map_order_example :
    (◌≡◌ {A = ℕ} 1 2 → ◌≡◌ {A = String} "aa02" "aa01") × (1 < 2 → 400_000_000 ≤ 500_000_000)
guid_run_map_order_example =
    guid_run_map_order board_to_host_app board data_event two_sources "aa02" "aa01" 1 2 400_000_000
      500_000_000 lookup_first lookup_second time_first time_second

assign_runs_bounds_example :
    All (HasRunBelow (run_count events board host)) (assign_runs events board host).0
assign_runs_bounds_example = assign_runs_bounds events board host

addresses : (board == host) ≡ false
unfolding string_eq
addresses = refl

addresses_differ : board ≢ host
addresses_differ h = absurd (ground (arith, addresses))

assign_runs_total_example :
    All
      (λ (e : TaggedEvent). IsWriterData board host e.event → e.run_id ≢ none)
      (assign_runs events board host).0
assign_runs_total_example = assign_runs_total events board host addresses_differ

-- The events of the capture, all of the first run.
abbrev in_first_run : Event → TaggedEvent
in_first_run e = record { event = e; run_id = some 1 }

abbrev tagged : List TaggedEvent
tagged = map in_first_run events

tagged_test : (assign_runs events board host).0 ≡ tagged
unfolding assign_runs run_of guid_run_map first_seen_from seen_with is_source numbered sort_by
    insert_by string_eq flow_eq event_type_eq
tagged_test = refl

summarize_flow_counts_example :
    let s = summarize_flow tagged 1 board_to_host_app in
    (s.data_unique_sequences + s.data_duplicate_observations
      ≡ numbered_data tagged 1 board_to_host_app)
    × (numbered_data tagged 1 board_to_host_app ≤ s.data_observations)
    × (s.data_repeated_sequences ≤ s.data_unique_sequences)
    × (s.requested_unique_sequences ≤ s.requested_sequence_observations)
    × (s.acknack_with_requests ≤ s.requested_sequence_observations)
summarize_flow_counts_example = summarize_flow_counts tagged 1 board_to_host_app

length-reconstruct_nack_links_example :
    length (reconstruct_nack_links tagged 1 board_to_host_app)
    ≡ (summarize_flow tagged 1 board_to_host_app).requested_sequence_observations
length-reconstruct_nack_links_example = length-reconstruct_nack_links tagged 1 board_to_host_app

reconstruct_nack_links-IsLinked_example :
    All
      (λ (link : Link).
        IsLinked
          (times_of link.requested_sequence (of_type data_event 1 board_to_host_app tagged))
          link)
      (reconstruct_nack_links tagged 1 board_to_host_app)
reconstruct_nack_links-IsLinked_example = reconstruct_nack_links-IsLinked tagged 1 board_to_host_app

abbrev condition : String × ℕ × String
condition = ("reliable", 15, "board_to_host")

evidence_of-partition_example :
    let s = (evidence_of "a.pcapng" "00" condition events board host).summary in
    (s.runs_observed ≡ run_count events board host)
    × (s.app_data_observations
        ≡ length (filter (has_run data_event board_to_host_app) (assign_runs events board host).0))
evidence_of-partition_example = evidence_of-partition "a.pcapng" "00" condition events board host

evidence_of-requests_example :
    let e = evidence_of "a.pcapng" "00" condition events board host in
    (length (filter is_app_link e.links) ≡ e.summary.requested_sequence_observations)
    × (e.summary.nack_links_with_post_data ≤ e.summary.requested_sequence_observations)
    × (e.summary.unique_sequences_with_prior_and_post_nack_data
        ≤ e.summary.nack_links_with_post_data)
    × (e.summary.runs_with_prior_and_post_nack_data
        ≤ e.summary.unique_sequences_with_prior_and_post_nack_data)
evidence_of-requests_example = evidence_of-requests "a.pcapng" "00" condition events board host

analyze_fails_example :
    (analyze "a.pcapng" "round4_transport_reliable_15pct_board_to_host.pcapng" "00" lines board host
      ≡ none)
    ↔ ((condition_from_path "round4_transport_reliable_15pct_board_to_host.pcapng" ≡ none)
        ⊎ (any (raises board host) (map row_of_line lines) ≡ true))
analyze_fails_example =
    analyze_fails "a.pcapng" "round4_transport_reliable_15pct_board_to_host.pcapng" "00" lines board
      host
