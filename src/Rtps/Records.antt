-- ===== src/Rtps/Records.antt =====
-- The dictionaries of reconstruct_rtps_app_samples.py as records. A time is in nanoseconds, the
-- unit of the ninth decimal that `tshark` prints; a text field that may be blank is an `Option`.
use qos_extended_mros2_esp.Base.{ℕ, String, Bool, Option, List, Eq}
use qos_extended_mros2_esp.Base.Int.{ℤ}

-- A line of `tshark` output, by `FIELDS` (without `_ws.col.Info`, which nothing reads).
pub record Row : Type 0 where
  pub frame_number : String
  pub time_relative : String
  pub ip_src : String
  pub ip_dst : String
  pub guid_src : String
  pub guid_dst : String
  pub sm_id : String
  pub rd_key : String
  pub rd_kind : String
  pub wr_key : String
  pub wr_kind : String
  pub seq_number : String
  pub num_bits : String
  pub bitmap : String
  pub acknack_count : String
  pub heartbeat_count : String

pub data Flow : Type 0 where
  board_to_host_app host_to_board_reply : Flow

pub data EventType : Type 0 where
  data_event heartbeat acknack : EventType

flow_dec : Discrete Flow
flow_dec = hlevel

event_type_dec : Discrete EventType
event_type_dec = hlevel

instance unfoldable pub flow_eq : Eq Flow
unfolding flow_dec
flow_eq = record { dec = flow_dec }

instance unfoldable pub event_type_eq : Eq EventType
unfolding event_type_dec
event_type_eq = record { dec = event_type_dec }

pub record Event : Type 0 where
  pub frame_number : ℤ
  pub time : ℕ
  pub flow : Flow
  pub event_type : EventType
  pub source_guid : String
  pub destination_guid : String
  pub source_ip : String
  pub destination_ip : String
  pub sequence : Option ℤ
  pub last_sequence : Option ℤ
  pub acknack_count : Option ℤ
  pub heartbeat_count : Option ℤ
  pub requested_sequences : List ℤ

-- An event behind `assign_runs`, which adds the key `run_id` to it.
pub record TaggedEvent : Type 0 where
  pub event : Event
  pub run_id : Option ℕ

-- What `summarize_flow` returns. Its medians are twice the code's, in nanoseconds where the
-- code has milliseconds, so that they are whole numbers; the maximal span is in nanoseconds.
pub record RunSummary : Type 0 where
  pub run_id : ℕ
  pub flow : Flow
  pub data_observations : ℕ
  pub data_unique_sequences : ℕ
  pub data_duplicate_observations : ℕ
  pub data_repeated_sequences : ℕ
  pub data_max_observations_per_sequence : ℕ
  pub first_retry_delay_median : Option ℕ
  pub retry_span_max : Option ℕ
  pub heartbeat_observations : ℕ
  pub heartbeat_interval_median : Option ℕ
  pub acknack_observations : ℕ
  pub acknack_with_requests : ℕ
  pub requested_sequence_observations : ℕ
  pub requested_unique_sequences : ℕ

-- What `reconstruct_nack_links` lists. The delay is in nanoseconds.
pub record Link : Type 0 where
  pub run_id : ℕ
  pub flow : Flow
  pub ack_frame_number : ℤ
  pub ack_time : ℕ
  pub acknack_count : Option ℤ
  pub requested_sequence : ℤ
  pub prior_data_observed : Bool
  pub post_nack_data_observed : Bool
  pub next_data_time : Option ℕ
  pub nack_to_next_data : Option ℕ
