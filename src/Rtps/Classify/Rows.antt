-- ===== src/Rtps/Classify/Rows.antt =====
-- `classify_row`, from the fields of a row.
use qos_extended_mros2_esp.Base.{
  String, Bool, ◌&&◌, Option, none, some, List, [], ◌∷◌, ◌>>=◌, ◌==◌, contains, if◌then◌else◌,
  option_eq, string_eq, head?, last?,
}
use qos_extended_mros2_esp.Base.Int.{ℤ, pos, int_eq}
use qos_extended_mros2_esp.Base.Number.{int_base_10, float_nanos}
use qos_extended_mros2_esp.Rtps.Records.{
  Row, Flow, board_to_host_app, host_to_board_reply, EventType, data_event, heartbeat, acknack,
  Event,
}
use qos_extended_mros2_esp.Rtps.Fields.{
  split_values, parsed_ints, first_int, normalize_guid, endpoint_tuple,
}
use qos_extended_mros2_esp.Rtps.SequenceSet.{decode_sequence_set}

abbrev pub data_id : ℤ
data_id = pos 0x15

abbrev pub heartbeat_id : ℤ
heartbeat_id = pos 0x07

abbrev pub acknack_id : ℤ
acknack_id = pos 0x06

abbrev pub Endpoint : Type 0
Endpoint = Option ℤ × Option ℤ

abbrev pub board_writer : Endpoint
board_writer = (some (pos 0x000001), some (pos 0x03))

abbrev pub host_reader : Endpoint
host_reader = (some (pos 0x000012), some (pos 0x04))

abbrev pub host_writer : Endpoint
host_writer = (some (pos 0x000013), some (pos 0x03))

abbrev pub board_reader : Endpoint
board_reader = (some (pos 0x000002), some (pos 0x04))

-- `==` on the endpoint tuples
unfoldable pub same_endpoint : Endpoint → Endpoint → Bool
same_endpoint (key, kind) (key', kind') = key == key' && kind == kind'

-- The three tests on the submessages, for the source of DATA and HEARTBEAT and that of ACKNACK.
unfoldable pub event_type_of : List ℤ → String → String → String → Option EventType
event_type_of submessages source_ip writer_ip reader_ip =
    if contains submessages data_id && source_ip == writer_ip
    then some data_event
    else if contains submessages heartbeat_id && source_ip == writer_ip
    then some heartbeat
    else if contains submessages acknack_id && source_ip == reader_ip
    then some acknack
    else none

-- The two branches on the endpoints; `none` is the early `return None`.
unfoldable pub flow_and_type :
    Endpoint → Endpoint → List ℤ → String → String → String → Option (Flow × EventType)
flow_and_type writer reader submessages source_ip board_ip host_ip =
    if same_endpoint writer board_writer && same_endpoint reader host_reader
    then (event_type_of submessages source_ip board_ip host_ip >>= λ kind.
        some (board_to_host_app, kind))
    else if same_endpoint writer host_writer && same_endpoint reader board_reader
    then (event_type_of submessages source_ip host_ip board_ip >>= λ kind.
        some (host_to_board_reply, kind))
    else none

-- `first_int(…) or 0`
abbrev pub int_or_zero : Option ℤ → ℤ
int_or_zero none = pos 0
int_or_zero (some n) = n

-- `bitmaps[0] if bitmaps else ""`
abbrev pub first_or_blank : List String → String
first_or_blank [] = ""
first_or_blank (s ∷ ss) = s

-- `requested_sequences` of an event: decoded for an ACKNACK, empty for the others.
unfoldable pub requested_of : Row → EventType → Option ℤ → Option (List ℤ)
requested_of row acknack sequence =
    decode_sequence_set sequence (int_or_zero (first_int row.num_bits))
      (first_or_blank (split_values row.bitmap))
requested_of row _ sequence = some []

-- The outer `none` is a `ValueError`, of the time, the frame number or the bitmap.
unfoldable pub classify_row : Row → String → String → Option (Option Event)
classify_row row board_ip host_ip = do
  time ← float_nanos row.time_relative
  elim (flow_and_type (endpoint_tuple row.wr_key row.wr_kind)
      (endpoint_tuple row.rd_key row.rd_kind) (parsed_ints row.sm_id) row.ip_src board_ip host_ip) [
        | none ↦ some none
        | some (flow, event_type) ↦ do
          let sequences = parsed_ints row.seq_number
          frame_number ← int_base_10 row.frame_number
          requested ← requested_of row event_type (head? sequences)
          some (
              some (record {
                frame_number = frame_number;
                time = time;
                flow = flow;
                event_type = event_type;
                source_guid = normalize_guid row.guid_src;
                destination_guid = normalize_guid row.guid_dst;
                source_ip = row.ip_src;
                destination_ip = row.ip_dst;
                sequence = head? sequences;
                last_sequence = last? sequences;
                acknack_count = first_int row.acknack_count;
                heartbeat_count = first_int row.heartbeat_count;
                requested_sequences = requested;
              }))
      ]
