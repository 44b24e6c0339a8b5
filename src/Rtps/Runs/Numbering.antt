-- ===== src/Rtps/Runs/Numbering.antt =====
-- `guid_run_map` and `assign_runs`.
use qos_extended_mros2_esp.Base.{
  ℕ, suc, ◌+◌, String, Bool, ◌&&◌, Option, none, some, List, [], ◌∷◌, map, ◌==◌, if◌then◌else◌,
  string_eq,
}
use qos_extended_mros2_esp.Base.Dict.{Dict, lookup, setdefault}
use qos_extended_mros2_esp.Base.Order.{sort_by}
use qos_extended_mros2_esp.Base.Text.{nonempty}
use qos_extended_mros2_esp.Rtps.Records.{
  Flow, board_to_host_app, host_to_board_reply, EventType, data_event, acknack, Event, TaggedEvent,
  flow_eq, event_type_eq,
}

-- The test of the loop in `guid_run_map`.
unfoldable pub is_source : Flow → String → EventType → Event → Bool
is_source flow source_ip event_type e =
    e.flow == flow
    && e.source_ip == source_ip
    && e.event_type == event_type
    && nonempty e.source_guid

-- The body of the loop that fills `first_seen`.
unfoldable pub seen_with : Flow → String → EventType → Dict String ℕ → Event → Dict String ℕ
seen_with flow source_ip event_type seen e =
    if is_source flow source_ip event_type e then setdefault e.source_guid e.time seen else seen

unfoldable pub first_seen_from :
    Flow → String → EventType → Dict String ℕ → List Event → Dict String ℕ
first_seen_from flow source_ip event_type seen [] = seen
first_seen_from flow source_ip event_type seen (e ∷ events) =
    first_seen_from flow source_ip event_type (seen_with flow source_ip event_type seen e) events

-- `{guid: index + 1 for index, guid in enumerate(ordered)}`, from an index on
unfoldable pub numbered : ℕ → Dict String ℕ → Dict String ℕ
numbered index [] = []
numbered index ((guid, first) ∷ ordered) = (guid, index + 1) ∷ numbered (index + 1) ordered

-- `ordered` holds each key with the time that it is sorted by.
unfoldable pub guid_run_map : List Event → Flow → String → EventType → Dict String ℕ
guid_run_map events flow source_ip event_type = numbered 0 (
    sort_by (λ (entry : String × ℕ). entry.1) (first_seen_from flow source_ip event_type [] events))

-- `a or b` on two results of `dict.get`: 0 is false, like `None`.
abbrev pub or_run : Option ℕ → Option ℕ → Option ℕ
or_run (some (suc n)) other = some (suc n)
or_run _ other = other

-- The value of `event["run_id"]`.
unfoldable pub run_of : Dict String ℕ → Dict String ℕ → String → String → Event → Option ℕ
run_of board_runs host_runs board_ip host_ip e =
    if e.event_type == acknack && e.flow == board_to_host_app
    then or_run (lookup e.destination_guid board_runs) (lookup e.source_guid host_runs)
    else if e.event_type == acknack && e.flow == host_to_board_reply
    then or_run (lookup e.destination_guid host_runs) (lookup e.source_guid board_runs)
    else if e.source_ip == board_ip
    then lookup e.source_guid board_runs
    else if e.source_ip == host_ip
    then lookup e.source_guid host_runs
    else none

-- The tagged events, and the two maps that `assign_runs` returns.
unfoldable pub assign_runs :
    List Event → String → String → List TaggedEvent × Dict String ℕ × Dict String ℕ
assign_runs events board_ip host_ip =
    let board_runs = guid_run_map events board_to_host_app board_ip data_event in
    let host_runs = guid_run_map events host_to_board_reply host_ip data_event in
    (
      map
          (λ (e : Event). record {
            event = e;
            run_id = run_of board_runs host_runs board_ip host_ip e;
          })
          events,
      board_runs,
      host_runs,
    )
