-- ===== src/Rtps/Runs/Assignment.antt =====
-- The run numbers that the events carry behind `assign_runs`.
use qos_extended_mros2_esp.Base.{
  ℕ, ◌≤◌, String, true, Option, none, some, List, [], ◌∷◌, ◌≡◌, ◌≢◌, map, string_eq, length, All,
  All-mono, All-both, All-every, arith, max_of,
}
use qos_extended_mros2_esp.Base.Dict.{Dict, lookup}
use qos_extended_mros2_esp.Base.Text.{nonempty}
use qos_extended_mros2_esp.Rtps.Records.{
  board_to_host_app, host_to_board_reply, data_event, Event, TaggedEvent, flow_eq, event_type_eq,
}
use qos_extended_mros2_esp.Rtps.Runs.Numbering.{is_source, guid_run_map, run_of, assign_runs}
use qos_extended_mros2_esp.Rtps.Runs.Laws.{guid_run_map_bounds, guid_run_map_total}

-- A map whose numbers lie between 1 and its size.
abbrev IsNumbering : Dict String ℕ → Type 0
IsNumbering runs =
    (guid : String) (run : ℕ) → lookup guid runs ≡ some run → (1 ≤ run) × (run ≤ length runs)

run_of_bounds :
    (board_runs host_runs : Dict String ℕ) (board_ip host_ip : String) (e : Event) (run : ℕ)
    → IsNumbering board_runs
    → IsNumbering host_runs
    → run_of board_runs host_runs board_ip host_ip e ≡ some run
    → (1 ≤ run) × (run ≤ max_of (length board_runs) (length host_runs))
unfolding run_of
run_of_bounds board_runs host_runs board_ip host_ip e run board host h = ground (
  arith,
  board e.source_guid run,
  board e.destination_guid run,
  host e.source_guid run,
  host e.destination_guid run,
)

-- The number of runs that `analyze` goes through.
abbrev pub run_count : List Event → String → String → ℕ
run_count events board_ip host_ip =
    let (_, board_runs, host_runs) = assign_runs events board_ip host_ip in
    max_of (length board_runs) (length host_runs)

abbrev pub HasRunBelow : ℕ → TaggedEvent → Type 0
HasRunBelow count e = (run : ℕ) → e.run_id ≡ some run → (1 ≤ run) × (run ≤ count)

All-tagged :
    (P : TaggedEvent → Type 0) (f : Event → Option ℕ) (events : List Event)
    → All (λ (e : Event). P (record { event = e; run_id = f e })) events
    → All P (map (λ (e : Event). record { event = e; run_id = f e }) events)
All-tagged P f [] h = tt
All-tagged P f (e ∷ events) (p, h) = (p, All-tagged P f events h)

-- A run number that `assign_runs` puts on an event lies between 1 and the number of runs that
-- `analyze` goes through, so no numbered event is left out.
pub assign_runs_bounds :
    (events : List Event) (board_ip host_ip : String)
    → All (HasRunBelow (run_count events board_ip host_ip)) (assign_runs events board_ip host_ip).0
unfolding assign_runs
assign_runs_bounds events board_ip host_ip =
    let board_runs = guid_run_map events board_to_host_app board_ip data_event in
    let host_runs = guid_run_map events host_to_board_reply host_ip data_event in
    All-tagged _ (run_of board_runs host_runs board_ip host_ip) events (
      All-every events λ e run h.
        run_of_bounds board_runs host_runs board_ip host_ip e run
          (guid_run_map_bounds board_to_host_app board_ip data_event events)
          (guid_run_map_bounds host_to_board_reply host_ip data_event events) h)

-- DATA from the writer's side of its flow, with a source that is not blank.
abbrev pub IsWriterData : String → String → Event → Type 0
IsWriterData board_ip host_ip e =
    (e.event_type ≡ data_event)
    × (e.source_ip ≡ elim e.flow [ board_to_host_app ↦ board_ip | host_to_board_reply ↦ host_ip ])
    × (nonempty e.source_guid ≡ true)

run_of-data :
    (board_runs host_runs : Dict String ℕ) (board_ip host_ip : String) (e : Event)
    → board_ip ≢ host_ip
    → (is_source board_to_host_app board_ip data_event e ≡ true
        → lookup e.source_guid board_runs ≢ none)
    → (is_source host_to_board_reply host_ip data_event e ≡ true
        → lookup e.source_guid host_runs ≢ none)
    → IsWriterData board_ip host_ip e
    → run_of board_runs host_runs board_ip host_ip e ≢ none
unfolding run_of is_source
run_of-data board_runs host_runs board_ip host_ip e apart board host (kind, source, filled) =
    ground arith

-- With two distinct addresses, every DATA event from the writer's side of its flow whose source
-- is not blank gets a run number.
pub assign_runs_total :
    (events : List Event) (board_ip host_ip : String)
    → board_ip ≢ host_ip
    → All
        (λ (e : TaggedEvent). IsWriterData board_ip host_ip e.event → e.run_id ≢ none)
        (assign_runs events board_ip host_ip).0
unfolding assign_runs
assign_runs_total events board_ip host_ip apart =
    let board_runs = guid_run_map events board_to_host_app board_ip data_event in
    let host_runs = guid_run_map events host_to_board_reply host_ip data_event in
    All-tagged _ (run_of board_runs host_runs board_ip host_ip) events (
      All-mono events
        (λ e known. run_of-data board_runs host_runs board_ip host_ip e apart known.0 known.1)
        (All-both _ _ events (guid_run_map_total board_to_host_app board_ip data_event events)
          (guid_run_map_total host_to_board_reply host_ip data_event events)))
