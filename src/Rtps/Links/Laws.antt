-- ===== src/Rtps/Links/Laws.antt =====
-- How many links `reconstruct_nack_links` lists.
use qos_extended_mros2_esp.Base.{
  ℕ, List, [], ◌∷◌, ◌≡◌, refl, map, length, filter, flat_map, arith, length-append, length-map,
  option_eq,
}
use qos_extended_mros2_esp.Base.Int.{ℤ, int_eq}
use qos_extended_mros2_esp.Base.Dict.{Dict}
use qos_extended_mros2_esp.Rtps.Records.{Flow, acknack, TaggedEvent}
use qos_extended_mros2_esp.Rtps.Summary.{in_run, is_type, of_type, summarize_flow}
use qos_extended_mros2_esp.Rtps.Links.Requests.{
  data_times_of, link_of, links_from, reconstruct_nack_links,
}

abbrev requests : TaggedEvent → List ℤ
requests e = e.event.requested_sequences

length-links_from :
    (d : Dict ℤ (List ℕ)) (run_id : ℕ) (flow : Flow) (events : List TaggedEvent)
    → length (links_from d run_id flow events)
      ≡ length (flat_map requests (of_type acknack run_id flow events))
unfolding links_from of_type
length-links_from d run_id flow [] = refl
length-links_from d run_id flow (e ∷ events) = ground (
  arith,
  length-links_from d run_id flow events,
  length-append (map (link_of d run_id flow e.event) e.event.requested_sequences)
      (links_from d run_id flow events),
  length-map (link_of d run_id flow e.event) e.event.requested_sequences,
  length-append e.event.requested_sequences
      (flat_map requests (filter (is_type acknack) (filter (in_run run_id flow) events))),
)

-- `reconstruct_nack_links` lists as many links as `summarize_flow` counts requested numbers.
pub length-reconstruct_nack_links :
    (events : List TaggedEvent) (run_id : ℕ) (flow : Flow)
    → length (reconstruct_nack_links events run_id flow)
      ≡ (summarize_flow events run_id flow).requested_sequence_observations
unfolding reconstruct_nack_links summarize_flow
length-reconstruct_nack_links events run_id flow =
    length-links_from (data_times_of events run_id flow) run_id flow events
