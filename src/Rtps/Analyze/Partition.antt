-- ===== src/Rtps/Analyze/Partition.antt =====
-- The runs of `analyze` share the events out among themselves.
use qos_extended_mros2_esp.Base.{
  ℕ, zero, suc, ◌+◌, ◌≤◌, Bool, true, false, ◌&&◌, Option, none, some, List, [], ◌∷◌, ◌≡◌, refl,
  ◌∙◌, ap, length, filter, All, arith, ltb, leb, if◌then◌else◌, ◌==◌, option_eq, nat_eq, sum_over,
  sum_over-add, sum_over_mono, String,
}
use qos_extended_mros2_esp.Rtps.Records.{
  Flow, board_to_host_app, host_to_board_reply, EventType, data_event, Event, TaggedEvent,
  RunSummary, flow_eq,
}
use qos_extended_mros2_esp.Rtps.Summary.{in_run, is_type, of_type, summarize_flow}
use qos_extended_mros2_esp.Rtps.Condition.{is_app_run, total, condition_summary}
use qos_extended_mros2_esp.Rtps.Runs.{assign_runs}
use qos_extended_mros2_esp.Rtps.Runs.Assignment.{HasRunBelow, run_count, assign_runs_bounds}
use qos_extended_mros2_esp.Rtps.Analyze.Pipeline.{per_run_from, evidence_of}

abbrev is_numbered : Option ℕ → Bool
is_numbered none = false
is_numbered (some run) = true

abbrev is_number : Option ℕ → ℕ → Bool
is_number none r = false
is_number (some run) r = run == r

-- 1 for an event that belongs to the selection, 0 for another.
abbrev one_if : Bool → ℕ
one_if b = if b then 1 else 0

sum_over_zero : (start n : ℕ) → sum_over (λ r. 0) start n ≡ 0
sum_over_zero start zero = refl
sum_over_zero start (suc n) = omega (arith, sum_over_zero (start + 1) n)

-- A run number counts once among the numbers from `start` on, if it is one of them.
sum_over_same :
    (run start n : ℕ)
    → sum_over (λ r. one_if (run == r)) start n ≡ one_if (leb start run && ltb run (start + n))
sum_over_same run start zero = ground arith
sum_over_same run start (suc n) = ground (arith, sum_over_same run (start + 1) n)

sum_over_number :
    (fits : Bool) (id : Option ℕ) (count : ℕ)
    → ((run : ℕ) → id ≡ some run → (1 ≤ run) × (run ≤ count))
    → sum_over (λ r. one_if (if fits then is_number id r else false)) 1 count
      ≡ one_if (fits && is_numbered id)
sum_over_number false id count h = sum_over_zero 1 count
sum_over_number true none count h = sum_over_zero 1 count
sum_over_number true (some run) count h = sum_over_same run 1 count ∙ ground (arith, h run refl)

module _ (event_type : EventType) (flow : Flow) where
  -- The tests of an event but for its run number.
  pub fits : TaggedEvent → Bool
  fits e = is_type event_type e && e.event.flow == flow

  -- An event of the type and the flow that has a run number.
  pub has_run : TaggedEvent → Bool
  unfolding fits
  has_run e = fits e && is_numbered e.run_id

  -- Whether the selection of a run takes the event.
  abbrev taken : TaggedEvent → ℕ → Bool
  taken e r = is_type event_type e && in_run r flow e

  length-of_type_cons :
      (e : TaggedEvent) (events : List TaggedEvent) (r : ℕ)
      → length (of_type event_type r flow (e ∷ events))
        ≡ one_if (taken e r) + length (of_type event_type r flow events)
  unfolding of_type
  length-of_type_cons e events r = ground arith

  taken_by_run :
      (e : TaggedEvent) (r : ℕ) → taken e r ≡ (if fits e then is_number e.run_id r else false)
  unfolding in_run fits option_eq
  taken_by_run e r = ground arith

  sum_over-taken :
      (e : TaggedEvent) (count : ℕ)
      → HasRunBelow count e
      → sum_over (λ r. one_if (taken e r)) 1 count ≡ one_if (has_run e)
  unfolding has_run
  sum_over-taken e count bound =
      sum_over_mono _ _ 1 count (λ r. ap one_if (taken_by_run e r))
      ∙ sum_over_number (fits e) e.run_id count bound

  -- The selections of all runs hold each numbered event once.
  sum_over-of_type :
      (events : List TaggedEvent) (count : ℕ)
      → All (HasRunBelow count) events
      → sum_over (λ r. length (of_type event_type r flow events)) 1 count
        ≡ length (filter has_run events)
  unfolding of_type
  sum_over-of_type [] count h = sum_over_zero 1 count
  sum_over-of_type (e ∷ events) count (bound, h) =
      sum_over_mono _ _ 1 count (length-of_type_cons e events)
      ∙ sum_over-add _ _ 1 count
      ∙ ground (arith, sum_over-taken e count bound, sum_over-of_type events count h)

app_row :
    (events : List TaggedEvent) (r : ℕ)
    → (is_app_run (summarize_flow events r board_to_host_app) ≡ true)
      × (is_app_run (summarize_flow events r host_to_board_reply) ≡ false)
unfolding summarize_flow flow_eq
app_row events r = (refl, refl)

-- The rows of the application flow, one to a run.
pub total-per_run_from :
    (field : RunSummary → ℕ) (events : List TaggedEvent) (start n : ℕ)
    → total field (filter is_app_run (per_run_from events start n))
      ≡ sum_over (λ r. field (summarize_flow events r board_to_host_app)) start n
unfolding per_run_from
total-per_run_from field events start zero = refl
total-per_run_from field events start (suc n) =
    rw ((app_row events start).0, (app_row events start).1)
      (omega (arith, total-per_run_from field events (start + 1) n))

pub length-per_run_from :
    (events : List TaggedEvent) (start n : ℕ)
    → length (filter is_app_run (per_run_from events start n)) ≡ n
unfolding per_run_from
length-per_run_from events start zero = refl
length-per_run_from events start (suc n) =
    rw ((app_row events start).0, (app_row events start).1)
      (omega (arith, length-per_run_from events (start + 1) n))

data_observations_lem :
    (events : List TaggedEvent) (r : ℕ) (flow : Flow)
    → (summarize_flow events r flow).data_observations ≡ length (of_type data_event r flow events)
unfolding summarize_flow
data_observations_lem events r flow = refl

-- The summary has a row for each run, and its DATA observations are the DATA events of the
-- application flow that have a run number: the runs leave none of them out and count none twice.
pub evidence_of-partition :
    (pcap sha256 : String) (condition : String × ℕ × String) (events : List Event)
    (board_ip host_ip : String)
    → let s = (evidence_of pcap sha256 condition events board_ip host_ip).summary in
      (s.runs_observed ≡ run_count events board_ip host_ip)
      × (s.app_data_observations
          ≡ length (
              filter
                (has_run data_event board_to_host_app)
                (assign_runs events board_ip host_ip).0))
unfolding evidence_of condition_summary
evidence_of-partition pcap sha256 condition events board_ip host_ip =
    let tagged = (assign_runs events board_ip host_ip).0 in
    let count = run_count events board_ip host_ip in
    (
      length-per_run_from tagged 1 count,
      total-per_run_from (λ row. row.data_observations) tagged 1 count
          ∙ sum_over_mono _ _ 1 count (λ r. data_observations_lem tagged r board_to_host_app)
          ∙ sum_over-of_type data_event board_to_host_app tagged count
              (assign_runs_bounds events board_ip host_ip),
    )
