-- ===== src/Rtps/Analyze/Pipeline.antt =====
-- `tshark_rows` and `analyze`. The lines of `tshark` and the digest of the file are arguments.
use qos_extended_mros2_esp.Base.{
  ℕ, zero, suc, ◌+◌, String, Option, none, some, List, [], ◌∷◌, ◌++◌, map, length, ◌>>=◌, get_elem?,
  max_of,
}
use qos_extended_mros2_esp.Base.Text.{split_on}
use qos_extended_mros2_esp.Rtps.Records.{
  Row, board_to_host_app, host_to_board_reply, Event, TaggedEvent, RunSummary, Link,
}
use qos_extended_mros2_esp.Rtps.Classify.{classify_row}
use qos_extended_mros2_esp.Rtps.Runs.{assign_runs}
use qos_extended_mros2_esp.Rtps.Summary.{summarize_flow}
use qos_extended_mros2_esp.Rtps.Links.{reconstruct_nack_links}
use qos_extended_mros2_esp.Rtps.Condition.{
  Metadata, ConditionSummary, condition_from_path, condition_summary,
}

-- A field of a line, blank where the line is too short.
abbrev field_at : List String → ℕ → String
field_at values i = elim (get_elem? values i) [ none ↦ "" | some value ↦ value ]

-- One line of output, `dict(zip(FIELDS, values))`.
unfoldable pub row_of_line : String → Row
unfolding split_on
row_of_line line =
    let values = split_on b'\t' line in
    record {
      frame_number = field_at values 0;
      time_relative = field_at values 1;
      ip_src = field_at values 2;
      ip_dst = field_at values 3;
      guid_src = field_at values 4;
      guid_dst = field_at values 5;
      sm_id = field_at values 6;
      rd_key = field_at values 7;
      rd_kind = field_at values 8;
      wr_key = field_at values 9;
      wr_kind = field_at values 10;
      seq_number = field_at values 11;
      num_bits = field_at values 12;
      bitmap = field_at values 13;
      acknack_count = field_at values 14;
      heartbeat_count = field_at values 15;
    }

-- The loop that collects the events; a `ValueError` in one row stops it.
unfoldable pub events_of : List Row → String → String → Option (List Event)
events_of [] board_ip host_ip = some []
events_of (row ∷ rows) board_ip host_ip =
    let rest = events_of rows board_ip host_ip in
    classify_row row board_ip host_ip >>= λ event.
    rest >>= λ events. some (elim event [ none ↦ events | some e ↦ e ∷ events ])

-- The two nested loops, from a run on, with the number of runs left.
unfoldable pub per_run_from : List TaggedEvent → ℕ → ℕ → List RunSummary
per_run_from events run_id zero = []
per_run_from events run_id (suc runs) =
    summarize_flow events run_id board_to_host_app
    ∷ summarize_flow events run_id host_to_board_reply
    ∷ per_run_from events (run_id + 1) runs

unfoldable pub links_of_runs : List TaggedEvent → ℕ → ℕ → List Link
links_of_runs events run_id zero = []
links_of_runs events run_id (suc runs) =
    reconstruct_nack_links events run_id board_to_host_app
    ++ (reconstruct_nack_links events run_id host_to_board_reply
        ++ links_of_runs events (run_id + 1) runs)

-- What `analyze` returns. Every run and link of it carries the summary's metadata.
pub record Evidence : Type 0 where
  pub summary : ConditionSummary
  pub per_run : List RunSummary
  pub links : List Link

-- The part of `analyze` that follows the naming of the condition.
unfoldable pub evidence_of :
    String → String → String × ℕ × String → List Event → String → String → Evidence
evidence_of pcap sha256 (qos, loss_pct, direction) events board_ip host_ip =
    let (tagged, board_runs, host_runs) = assign_runs events board_ip host_ip in
    let run_count = max_of (length board_runs) (length host_runs) in
    let per_run = per_run_from tagged 1 run_count in
    let links = links_of_runs tagged 1 run_count in
    let metadata : Metadata = record {
      pcap = pcap;
      pcap_sha256 = sha256;
      qos = qos;
      loss_pct = loss_pct;
      impairment_direction = direction;
      board_guid_runs = length board_runs;
      host_guid_runs = length host_runs;
    } in
    record { summary = condition_summary per_run links metadata; per_run = per_run; links = links }

-- `none` is a `ValueError`, which `main` reports as `FAIL`.
unfoldable pub analyze : String → String → String → List String → String → String → Option Evidence
analyze pcap name sha256 lines board_ip host_ip = do
  condition ← condition_from_path name
  events ← events_of (map row_of_line lines) board_ip host_ip
  some (evidence_of pcap sha256 condition events board_ip host_ip)
