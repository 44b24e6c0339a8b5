-- ===== src/Rtps/Links/Requests.antt =====
-- `reconstruct_nack_links`.
use qos_extended_mros2_esp.Base.{
  ℕ, ◌-◌, Bool, true, false, not, ◌&&◌, Option, none, some, List, [], ◌∷◌, ◌++◌, map, filter, head?,
  ltb, if◌then◌else◌,
}
use qos_extended_mros2_esp.Base.Int.{ℤ, int_eq}
use qos_extended_mros2_esp.Base.Dict.{Dict, lookup}
use qos_extended_mros2_esp.Rtps.Records.{Flow, data_event, acknack, Event, TaggedEvent, Link}
use qos_extended_mros2_esp.Rtps.Summary.{in_run, is_type, of_type, by_sequence_from, sort_each}

-- `data_times.get(sequence, [])`
abbrev pub times_for : ℤ → Dict ℤ (List ℕ) → List ℕ
times_for sequence data_times = elim (lookup sequence data_times) [ none ↦ [] | some times ↦ times ]

-- The dict that the first loop fills and then sorts.
unfoldable pub data_times_of : List TaggedEvent → ℕ → Flow → Dict ℤ (List ℕ)
data_times_of events run_id flow =
    sort_each (by_sequence_from [] (of_type data_event run_id flow events))

-- `[t for t in times if t < ack]`
abbrev pub before : ℕ → List ℕ → List ℕ
before ack_time = filter (λ t. ltb t ack_time)

-- `[t for t in times if t > ack]`
abbrev pub after : ℕ → List ℕ → List ℕ
after ack_time = filter (λ t. ltb ack_time t)

abbrev pub is_some {ℓ} : {A : Type ℓ} → Option A → Bool
is_some none = false
is_some (some a) = true

-- The body of the inner loop.
unfoldable pub link_of : Dict ℤ (List ℕ) → ℕ → Flow → Event → ℤ → Link
link_of data_times run_id flow e sequence =
    let times = times_for sequence data_times in
    let next_time = head? (after e.time times) in
    record {
      run_id = run_id;
      flow = flow;
      ack_frame_number = e.frame_number;
      ack_time = e.time;
      acknack_count = e.acknack_count;
      requested_sequence = sequence;
      prior_data_observed = is_some (head? (before e.time times));
      post_nack_data_observed = is_some next_time;
      next_data_time = next_time;
      nack_to_next_data = elim next_time [ none ↦ none | some t ↦ some (t - e.time) ];
    }

-- The outer loop over all events, with its `continue`.
unfoldable pub links_from : Dict ℤ (List ℕ) → ℕ → Flow → List TaggedEvent → List Link
links_from data_times run_id flow [] = []
links_from data_times run_id flow (e ∷ events) =
    let rest = links_from data_times run_id flow events in
    if not (in_run run_id flow e && is_type acknack e)
    then rest
    else map (link_of data_times run_id flow e.event) e.event.requested_sequences ++ rest

unfoldable pub reconstruct_nack_links : List TaggedEvent → ℕ → Flow → List Link
reconstruct_nack_links events run_id flow =
    links_from (data_times_of events run_id flow) run_id flow events
