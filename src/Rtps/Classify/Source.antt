-- ===== src/Rtps/Classify/Source.antt =====
-- Who sent the event that a row is classified as.
use mathlib.Core.Option.{some-injective}
use qos_extended_mros2_esp.Base.{
  String, true, Option, none, some, List, [], ◌≡◌, sym, All-mono, head?, ◌≢◌, contains, arith, refl,
  All,
}
use qos_extended_mros2_esp.Base.Int.{ℤ, int_eq, ◌≤ℤ◌}
use qos_extended_mros2_esp.Rtps.Records.{
  Row, Flow, board_to_host_app, host_to_board_reply, EventType, data_event, heartbeat, acknack,
  Event,
}
use qos_extended_mros2_esp.Rtps.Fields.{parsed_ints, first_int, split_values, endpoint_tuple}
use qos_extended_mros2_esp.Rtps.SequenceSet.{decode_sequence_set}
use qos_extended_mros2_esp.Rtps.SequenceSet.Laws.{IsIncreasing, decode_sequence_set_window}
use qos_extended_mros2_esp.Rtps.Classify.Rows.{
  Endpoint, data_id, heartbeat_id, acknack_id, board_writer, board_reader, host_writer, host_reader,
  int_or_zero, first_or_blank, event_type_of, same_endpoint, flow_and_type, requested_of,
  classify_row,
}

-- The submessage, the writer and the reader that an event stands for.
pub submessage_of : EventType → ℤ
submessage_of data_event = data_id
submessage_of heartbeat = heartbeat_id
submessage_of acknack = acknack_id

pub writer_of : Flow → Endpoint
writer_of board_to_host_app = board_writer
writer_of host_to_board_reply = host_writer

pub reader_of : Flow → Endpoint
reader_of board_to_host_app = host_reader
reader_of host_to_board_reply = board_reader

-- An ACKNACK comes from the reader's side of the flow, DATA and HEARTBEAT from the writer's.
pub sender_of : Flow → EventType → String → String → String
sender_of board_to_host_app acknack board_ip host_ip = host_ip
sender_of board_to_host_app _ board_ip host_ip = board_ip
sender_of host_to_board_reply acknack board_ip host_ip = board_ip
sender_of host_to_board_reply _ board_ip host_ip = host_ip

event_type_of_sender :
    (subs : List ℤ) (source writer_ip reader_ip : String) (kind : EventType)
    → event_type_of subs source writer_ip reader_ip ≡ some kind
    → (contains subs (submessage_of kind) ≡ true)
      × (source ≡ sender_of board_to_host_app kind writer_ip reader_ip)
unfolding event_type_of submessage_of sender_of
event_type_of_sender subs source writer_ip reader_ip kind h = ground arith

sender_of-swap :
    (kind : EventType) (board_ip host_ip : String)
    → sender_of board_to_host_app kind host_ip board_ip
      ≡ sender_of host_to_board_reply kind board_ip host_ip
unfolding sender_of
sender_of-swap kind board_ip host_ip = ground arith

same_endpoint-eq : (a b : Endpoint) → same_endpoint a b ≡ true → a ≡ b
unfolding same_endpoint
same_endpoint-eq a b h = ground arith

flow_and_type_sender :
    (writer reader : Endpoint) (subs : List ℤ) (source board_ip host_ip : String) (flow : Flow)
    (kind : EventType)
    → flow_and_type writer reader subs source board_ip host_ip ≡ some (flow, kind)
    → (contains subs (submessage_of kind) ≡ true)
      × (source ≡ sender_of flow kind board_ip host_ip)
      × (writer ≡ writer_of flow)
      × (reader ≡ reader_of flow)
unfolding flow_and_type writer_of reader_of
flow_and_type_sender writer reader subs source board_ip host_ip flow kind h = ground (
  arith,
  event_type_of_sender subs source board_ip host_ip kind,
  event_type_of_sender subs source host_ip board_ip kind,
  sender_of-swap kind board_ip host_ip,
  same_endpoint-eq writer board_writer,
  same_endpoint-eq reader host_reader,
  same_endpoint-eq writer host_writer,
  same_endpoint-eq reader board_reader,
)

-- What the row says of an event that it is classified as.
pub record IsEventOf (row : Row) (board_ip host_ip : String) (e : Event) : Type 0 where
  pub carried : contains (parsed_ints row.sm_id) (submessage_of e.event_type) ≡ true
  pub source : e.source_ip ≡ sender_of e.flow e.event_type board_ip host_ip
  pub written : endpoint_tuple row.wr_key row.wr_kind ≡ writer_of e.flow
  pub read : endpoint_tuple row.rd_key row.rd_kind ≡ reader_of e.flow
  pub first_number : e.sequence ≡ head? (parsed_ints row.seq_number)
  pub requested : requested_of row e.event_type e.sequence ≡ some e.requested_sequences

-- A row that is classified as an event carries the event's submessage between the writer and the
-- reader of its flow, and comes from the side that sends it: the reader's address for an ACKNACK,
-- the writer's for DATA and HEARTBEAT. Its sequence number is the first of the row, and its
-- requested numbers are those that are decoded for its type.
pub classify_row-IsEventOf :
    (row : Row) (board_ip host_ip : String) (e : Event)
    → classify_row row board_ip host_ip ≡ some (some e)
    → IsEventOf row board_ip host_ip e
unfolding classify_row
classify_row-IsEventOf row board_ip host_ip e h = ground (
  arith,
  flow_and_type_sender (endpoint_tuple row.wr_key row.wr_kind)
      (endpoint_tuple row.rd_key row.rd_kind) (parsed_ints row.sm_id) row.ip_src board_ip host_ip
      e.flow e.event_type,
)

requested_of-acknack :
    (row : Row) (kind : EventType) (sequence : Option ℤ) (requested : List ℤ)
    → requested_of row kind sequence ≡ some requested
    → requested ≢ []
    → (kind ≡ acknack)
      × (base : ℤ) × (sequence ≡ some base)
      × IsIncreasing requested
      × All (λ s. base ≤ℤ s) requested
unfolding requested_of decode_sequence_set
requested_of-acknack row data_event sequence requested h more =
    absurd (more (sym (some-injective _ _ h)))
requested_of-acknack row heartbeat sequence requested h more =
    absurd (more (sym (some-injective _ _ h)))
requested_of-acknack row acknack none requested h more = absurd (more (sym (some-injective _ _ h)))
requested_of-acknack row acknack (some base) requested h more =
    let (window, increasing) =
      decode_sequence_set_window base (int_or_zero (first_int row.num_bits))
        (first_or_blank (split_values row.bitmap)) h in
    (refl, base, refl, increasing, All-mono _ (λ s w. w.0) window)

-- An event that asks for numbers is an ACKNACK with a first sequence number, and it asks for
-- numbers from that one on, each greater than the one before.
pub classify_row_requests :
    (row : Row) (board_ip host_ip : String) (e : Event)
    → classify_row row board_ip host_ip ≡ some (some e)
    → e.requested_sequences ≢ []
    → (e.event_type ≡ acknack)
      × (base : ℤ) × (e.sequence ≡ some base)
      × IsIncreasing e.requested_sequences
      × All (λ s. base ≤ℤ s) e.requested_sequences
classify_row_requests row board_ip host_ip e h more =
    requested_of-acknack row e.event_type e.sequence e.requested_sequences
      (classify_row-IsEventOf row board_ip host_ip e h).requested more
