-- ===== src/Rtps/Condition/Totals.antt =====
-- `condition_summary`.
use qos_extended_mros2_esp.Base.{
  ℕ, String, Bool, ◌&&◌, ◌||◌, Option, none, some, List, [], ◌∷◌, map, ◌==◌, contains, length,
  filter, sum, if◌then◌else◌, nat_eq,
}
use qos_extended_mros2_esp.Base.Int.{ℤ, int_eq}
use qos_extended_mros2_esp.Rtps.Records.{board_to_host_app, RunSummary, Link, flow_eq}
use qos_extended_mros2_esp.Rtps.Times.{median_or_blank, max_or_blank}

-- The keys that `metadata` puts into every record.
pub record Metadata : Type 0 where
  pub pcap : String
  pub pcap_sha256 : String
  pub qos : String
  pub loss_pct : ℕ
  pub impairment_direction : String
  pub board_guid_runs : ℕ
  pub host_guid_runs : ℕ

-- The delays are in nanoseconds, their median doubled. `heartbeat_interval_run_median` is twice
-- the median of values that are themselves doubled.
pub record ConditionSummary : Type 0 where
  pub metadata : Metadata
  pub runs_observed : ℕ
  pub app_data_observations : ℕ
  pub app_data_unique_sequences : ℕ
  pub app_data_duplicate_observations : ℕ
  pub app_data_repeated_sequences : ℕ
  pub acknack_observations : ℕ
  pub requested_sequence_observations : ℕ
  pub nack_links_with_post_data : ℕ
  pub unique_sequences_with_prior_and_post_nack_data : ℕ
  pub runs_with_prior_and_post_nack_data : ℕ
  pub nack_to_next_data_median : Option ℕ
  pub nack_to_next_data_max : Option ℕ
  pub heartbeat_interval_run_median : Option ℕ

-- The values that are there, of fields that may be blank.
unfoldable pub present : List (Option ℕ) → List ℕ
present [] = []
present (none ∷ xs) = present xs
present (some x ∷ xs) = x ∷ present xs

abbrev pub is_app_run : RunSummary → Bool
is_app_run row = row.flow == board_to_host_app

abbrev pub is_app_link : Link → Bool
is_app_link row = row.flow == board_to_host_app

abbrev pub is_strong : Link → Bool
is_strong row = row.prior_data_observed && row.post_nack_data_observed

abbrev pub pair_in : ℕ → ℤ → List (ℕ × ℤ) → Bool
pair_in run_id sequence [] = Bool.false
pair_in run_id sequence ((r, s) ∷ pairs) =
    (run_id == r && sequence == s) || pair_in run_id sequence pairs

-- The pair that `strong_sequences` holds of a link, and its run.
abbrev pub request_of : Link → ℕ × ℤ
request_of row = (row.run_id, row.requested_sequence)

abbrev pub run_of_request : ℕ × ℤ → ℕ
run_of_request (run_id, sequence) = run_id

-- The set `strong_sequences`.
unfoldable pub distinct_pairs : List (ℕ × ℤ) → List (ℕ × ℤ)
distinct_pairs [] = []
distinct_pairs ((run_id, sequence) ∷ pairs) =
    let rest = distinct_pairs pairs in
    if pair_in run_id sequence pairs then rest else (run_id, sequence) ∷ rest

-- The set `strong_runs`.
unfoldable pub distinct_runs : List ℕ → List ℕ
distinct_runs [] = []
distinct_runs (x ∷ xs) = let rest = distinct_runs xs in if contains xs x then rest else x ∷ rest

abbrev pub total : (RunSummary → ℕ) → List RunSummary → ℕ
total field rows = sum (map field rows)

unfoldable pub condition_summary : List RunSummary → List Link → Metadata → ConditionSummary
condition_summary per_run links metadata =
    let rows = filter is_app_run per_run in
    let link_rows = filter is_app_link links in
    let post_links = filter (λ (row : Link). row.post_nack_data_observed) link_rows in
    let matched_links = present (map (λ (row : Link). row.nack_to_next_data) post_links) in
    let strong_sequences = distinct_pairs (map request_of (filter is_strong link_rows)) in
    let strong_runs = distinct_runs (map run_of_request strong_sequences) in
    let heartbeat_intervals =
      present (map (λ (row : RunSummary). row.heartbeat_interval_median) rows) in
    record {
      metadata = metadata;
      runs_observed = length rows;
      app_data_observations = total (λ row. row.data_observations) rows;
      app_data_unique_sequences = total (λ row. row.data_unique_sequences) rows;
      app_data_duplicate_observations = total (λ row. row.data_duplicate_observations) rows;
      app_data_repeated_sequences = total (λ row. row.data_repeated_sequences) rows;
      acknack_observations = total (λ row. row.acknack_observations) rows;
      requested_sequence_observations = total (λ row. row.requested_sequence_observations) rows;
      nack_links_with_post_data = length post_links;
      unique_sequences_with_prior_and_post_nack_data = length strong_sequences;
      runs_with_prior_and_post_nack_data = length strong_runs;
      nack_to_next_data_median = median_or_blank matched_links;
      nack_to_next_data_max = max_or_blank matched_links;
      heartbeat_interval_run_median = median_or_blank heartbeat_intervals;
    }
