-- ===== src/Rtps/Analyze/Laws.antt =====
-- How the totals of `condition_summary` hang together, and when `analyze` fails.
use qos_extended_mros2_esp.Base.{
  ℕ, zero, suc, ◌+◌, ◌≤◌, Bool, true, false, none, some, List, [], ◌∷◌, ◌≡◌, ◌↔◌, refl, ◌∙◌, sym,
  map, length, filter, any, All-mono, arith, ◌==◌, sum_over, String, length-append, length-filter,
  length-map, filter-append, filter-All, filter_none, ◌⊎◌,
}
use qos_extended_mros2_esp.Base.Int.{ℤ}
use qos_extended_mros2_esp.Rtps.Records.{
  Row, Flow, board_to_host_app, host_to_board_reply, Event, TaggedEvent, Link, flow_eq,
}
use qos_extended_mros2_esp.Rtps.Summary.{summarize_flow}
use qos_extended_mros2_esp.Rtps.Classify.{classify_row}
use qos_extended_mros2_esp.Rtps.Links.{reconstruct_nack_links}
use qos_extended_mros2_esp.Rtps.Links.Laws.{length-reconstruct_nack_links}
use qos_extended_mros2_esp.Rtps.Links.Earliest.{reconstruct_nack_links-flow}
use qos_extended_mros2_esp.Rtps.Condition.{
  condition_summary, condition_from_path, is_app_link, is_strong, request_of, run_of_request,
  distinct_pairs, distinct_runs, total,
}
use qos_extended_mros2_esp.Rtps.Runs.{assign_runs}
use qos_extended_mros2_esp.Rtps.Runs.Assignment.{run_count}
use qos_extended_mros2_esp.Rtps.Analyze.Pipeline.{
  row_of_line, events_of, links_of_runs, evidence_of, analyze,
}
use qos_extended_mros2_esp.Rtps.Analyze.Partition.{total-per_run_from}

same_flow : (flow : Flow) → (flow == flow) ≡ true
same_flow flow = ground arith

app_links :
    (events : List TaggedEvent) (r : ℕ)
    → filter is_app_link (reconstruct_nack_links events r board_to_host_app)
      ≡ reconstruct_nack_links events r board_to_host_app
app_links events r = filter-All is_app_link _ (
    All-mono _ (λ link h. rw (h.1) (same_flow board_to_host_app))
      (reconstruct_nack_links-flow events r board_to_host_app))

reply_links :
    (events : List TaggedEvent) (r : ℕ)
    → filter is_app_link (reconstruct_nack_links events r host_to_board_reply) ≡ []
unfolding flow_eq
reply_links events r = filter_none is_app_link _ (
    All-mono _ (λ link h. rw (h.1) refl) (reconstruct_nack_links-flow events r host_to_board_reply))

-- The links of the application flow, over all runs.
length-links_of_runs :
    (events : List TaggedEvent) (start n : ℕ)
    → length (filter is_app_link (links_of_runs events start n))
      ≡ sum_over
          (λ r. (summarize_flow events r board_to_host_app).requested_sequence_observations)
          start
          n
unfolding links_of_runs
length-links_of_runs events start zero = refl
length-links_of_runs events start (suc n) =
    rw (filter-append, filter-append, app_links, reply_links)
      (omega (
        arith,
        length-append (reconstruct_nack_links events start board_to_host_app)
            (filter is_app_link (links_of_runs events (start + 1) n)),
        length-reconstruct_nack_links events start board_to_host_app,
        length-links_of_runs events (start + 1) n,
      ))

length-distinct_pairs : (pairs : List (ℕ × ℤ)) → length (distinct_pairs pairs) ≤ length pairs
unfolding distinct_pairs
length-distinct_pairs [] = omega arith
length-distinct_pairs ((r, s) ∷ pairs) = ground (arith, length-distinct_pairs pairs)

length-distinct_runs : (runs : List ℕ) → length (distinct_runs runs) ≤ length runs
unfolding distinct_runs
length-distinct_runs [] = omega arith
length-distinct_runs (x ∷ xs) = ground (arith, length-distinct_runs xs)

strong-le-post :
    (links : List Link)
    → length (filter is_strong links)
      ≤ length (filter (λ (row : Link). row.post_nack_data_observed) links)
strong-le-post [] = omega arith
strong-le-post (link ∷ links) = ground (arith, strong-le-post links)

-- The summary counts one link for each number that its ACKNACKs request. Of these the links with
-- later DATA are some, the distinct numbers with DATA on both sides are no more than those, and
-- the runs that have such a number are no more than such numbers.
pub evidence_of-requests :
    (pcap sha256 : String) (condition : String × ℕ × String) (events : List Event)
    (board_ip host_ip : String)
    → let e = evidence_of pcap sha256 condition events board_ip host_ip in
      (length (filter is_app_link e.links) ≡ e.summary.requested_sequence_observations)
      × (e.summary.nack_links_with_post_data ≤ e.summary.requested_sequence_observations)
      × (e.summary.unique_sequences_with_prior_and_post_nack_data
          ≤ e.summary.nack_links_with_post_data)
      × (e.summary.runs_with_prior_and_post_nack_data
          ≤ e.summary.unique_sequences_with_prior_and_post_nack_data)
unfolding evidence_of condition_summary
evidence_of-requests pcap sha256 condition events board_ip host_ip =
    let tagged = (assign_runs events board_ip host_ip).0 in
    let count = run_count events board_ip host_ip in
    let app = filter is_app_link (links_of_runs tagged 1 count) in
    let all : length app ≡ total (λ row. row.requested_sequence_observations) _ =
      length-links_of_runs tagged 1 count
      ∙ sym (total-per_run_from (λ row. row.requested_sequence_observations) tagged 1 count) in
    let pairs = map request_of (filter is_strong app) in
    (
      all,
      omega (arith, length-filter (λ (row : Link). row.post_nack_data_observed) app),
      omega (
        arith,
        length-distinct_pairs pairs,
        length-map request_of (filter is_strong app),
        strong-le-post app,
      ),
      omega (
        arith,
        length-distinct_runs (map run_of_request (distinct_pairs pairs)),
        length-map run_of_request (distinct_pairs pairs),
      ),
    )

-- Classifying the row raises a `ValueError`.
abbrev pub raises : String → String → Row → Bool
raises board_ip host_ip row = elim (classify_row row board_ip host_ip) [
  | none ↦ true
  | some e ↦ false
]

events_of_fails :
    (rows : List Row) (board_ip host_ip : String)
    → (events_of rows board_ip host_ip ≡ none) ↔ (any (raises board_ip host_ip) rows ≡ true)
unfolding events_of
events_of_fails [] board_ip host_ip = (λ h. cc, λ h. cc)
events_of_fails (row ∷ rows) board_ip host_ip =
    ground (arith, events_of_fails rows board_ip host_ip)

-- An analysis fails exactly when the file name states no condition or a line of the capture
-- cannot be classified, wherever in the capture it stands.
pub analyze_fails :
    (pcap name sha256 : String) (lines : List String) (board_ip host_ip : String)
    → (analyze pcap name sha256 lines board_ip host_ip ≡ none) ↔ (
        (condition_from_path name ≡ none)
        ⊎ (any (raises board_ip host_ip) (map row_of_line lines) ≡ true))
unfolding analyze
analyze_fails pcap name sha256 lines board_ip host_ip =
    ground (arith, events_of_fails (map row_of_line lines) board_ip host_ip)
