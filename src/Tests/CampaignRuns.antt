-- ===== src/Tests/CampaignRuns.antt =====
-- Runs of the mechanism campaign, and the witnesses of its theorems.
use qos_extended_mros2_esp.Base.{
  ℕ, zero, suc, ◌≡◌, refl, String, true, false, List, [], ◌∷◌, ◌++◌, none, some, map, All-map,
  range_from, inl, arith, string_eq, nat_eq, option_eq,
}
use qos_extended_mros2_esp.Base.Dict.{insert}
use qos_extended_mros2_esp.Base.Text.{lower, lstrip, rstrip, strip_prefix, text_le}
use qos_extended_mros2_esp.Base.Order.{sort_with}
use qos_extended_mros2_esp.Board.{occurs}
use qos_extended_mros2_esp.Base.Int.{pos}
use qos_extended_mros2_esp.Base.Result.{ok}
use qos_extended_mros2_esp.Campaign.{
  Gate, Machine, Kind, unit, hardware, CaseRow, Files, Reading, CaseEntry, Surroundings,
  CampaignOptions, CampaignReport, CampaignManifest, main, new_entry, ends, complete, in_progress,
  finished, is_passing, fatal_attempt, check_environment, report_name, is_log_name, log_text,
  any_fatal, read_status, attempt_inventory, passing_from, only_passing, accepted_attempt,
  firmware_of, receipt_of, record_receipt, same_files, same_firmware, verify_receipt, attempt_rows,
  case_ledgers, verify_stored, accept_entry, rebuild_entry, rebuild_ledgers, is_spent, conclude,
  outcome_of, outcome_after, open_output, judge_attempt, settle, finish_campaign, prepare,
  run_attempt, start_attempt, run_attempts, run_case, run_cases, run_campaign,
}
use qos_extended_mros2_esp.Campaign.Bounds.{main-IsKept, IsKept}
use qos_extended_mros2_esp.Campaign.Manifest.{main-IsStated, IsStated}
use qos_extended_mros2_esp.Campaign.Settled.{IsReady}
use qos_extended_mros2_esp.Campaign.Attempts.{IsHelpful}
use qos_extended_mros2_esp.Campaign.Completion.{main-completes}

abbrev gate : Gate
gate = record {
  serial_resolved = "/dev/ttyUSB0";
  host_ip = "192.168.1.10";
  host_mac = "AA:BB";
  qdisc_sha256 = "qdisc noqueue";
  board_mac = "CC:DD";
  ap_ssid = "lab";
  ap_bssid = "EE:FF";
}

abbrev machine : Machine
machine = record {
  serial = some "/dev/ttyUSB0";
  address = "aa:bb";
  ipv4 = "192.168.1.10" ∷ [];
  qdisc = "qdisc noqueue";
  neighbor = "cc:dd REACHABLE";
  wlan = "Lab EE:ff";
}

-- Texts stand for their digests, and a report's text for its status.
abbrev reading : Reading
reading = record {
  sha256 = λ text. text;
  canonical_sha256 = λ text. text;
  load_report = λ text. some (record { status = some text; error = none });
}

-- A first attempt leaves no report; the others pass.
abbrev attempt_of : Kind → ℕ → Files × String
attempt_of kind zero = ([], "no reply")
attempt_of kind (suc n) = ((report_name kind, "PASS") ∷ [], "done")

abbrev lab : Surroundings (Unit {0})
lab = record {
  observe = λ world. (world, machine);
  run = λ row n world. (world, attempt_of row.kind n);
  row_text = λ row. row.case_id;
}

abbrev mechanism_row : Kind → ℕ → CaseRow
mechanism_row kind n = record {
  kind = kind;
  ordinal = n;
  claim_ordinal = "1";
  case_id = "case";
  policy = "deadline";
  firmware_sha256 = "f";
  artifact_manifest_sha256 = "m";
}

abbrev rows : List CaseRow
rows = map (mechanism_row unit) (range_from 1 27) ++ map (mechanism_row hardware) (range_from 1 32)

gate_fits : check_environment reading.canonical_sha256 gate machine ≡ ok tt
unfolding check_environment string_eq option_eq lower lstrip rstrip occurs strip_prefix
gate_fits = refl

attempt_harmless :
    (kind : Kind) (n : ℕ) (text : String)
    → fatal_attempt (
        insert "frozen_schedule_row.json" text
          (insert "runner.log" (attempt_of kind n).1 (attempt_of kind n).0))
      ≡ false
unfolding fatal_attempt log_text is_log_name string_eq lower occurs strip_prefix
attempt_harmless unit zero text = refl
attempt_harmless unit (suc n) text = refl
attempt_harmless hardware zero text = refl
attempt_harmless hardware (suc n) text = refl

attempt_passes :
    (kind : Kind) (text : String)
    → is_passing reading kind (
        insert "frozen_schedule_row.json" text
          (insert "runner.log" (attempt_of kind 2).1 (attempt_of kind 2).0))
      ≡ true
unfolding read_status string_eq
attempt_passes unit text = refl
attempt_passes hardware text = refl

helpful : IsHelpful lab reading gate
unfolding finished
helpful = record {
  fits = λ world. gate_fits;
  harmless = λ row n world. attempt_harmless row.kind n row.case_id;
  third_passes = λ row world. attempt_passes row.kind row.case_id;
}

abbrev unbounded : CampaignOptions
unbounded = record { max_new_attempts = none; dry_run = false; resume = false }

new-IsReady : (row : CaseRow) → IsReady reading (new_entry row)
unfolding passing_from any_fatal
new-IsReady row = inl (refl, omega arith, refl, refl)

-- A fresh campaign of 59 cases.
main-completes_example :
    (manifest : CampaignManifest) × ((main lab reading gate unbounded rows none tt).outcome
      ≡ ends manifest 0)
    × (manifest.status ≡ complete)
unfolding open_output
main-completes_example =
    main-completes lab reading gate helpful unbounded rows none (map new_entry rows) tt refl refl
      refl (All-map (IsReady reading) new_entry rows new-IsReady) refl refl

-- A case with one attempt, resumed for one attempt more.
abbrev at_most_one : CampaignOptions
at_most_one = record { max_new_attempts = some (pos 1); dry_run = false; resume = true }

abbrev begun : List CaseEntry
begun =
    record {
      row = mechanism_row unit 1;
      attempts = (("runner.log", "no reply") ∷ []) ∷ [];
      receipt = none;
    }
    ∷ new_entry (mechanism_row hardware 1)
    ∷ []

abbrev resumed : CampaignReport
resumed = main lab reading gate at_most_one [] (some begun) tt

main-IsKept_example : IsKept (some (pos 1)) begun resumed
main-IsKept_example = main-IsKept lab reading gate at_most_one [] begun tt

abbrev resumed_manifest : CampaignManifest
resumed_manifest = record {
  accepted_unit = 1;
  accepted_hardware = 0;
  new_attempts = 1;
  fatal = false;
  status = in_progress;
}

resumed_ends : resumed.outcome ≡ ends resumed_manifest 0
unfolding main check_environment string_eq nat_eq option_eq lower lstrip rstrip occurs strip_prefix
    is_log_name log_text fatal_attempt any_fatal read_status attempt_inventory passing_from
    only_passing accepted_attempt firmware_of receipt_of record_receipt same_files same_firmware
    verify_receipt attempt_rows case_ledgers verify_stored accept_entry rebuild_entry
    rebuild_ledgers is_spent conclude outcome_of outcome_after open_output judge_attempt settle
    finish_campaign finished prepare run_attempt start_attempt run_attempts run_case run_cases
    run_campaign text_le sort_with
resumed_ends = refl

main-IsStated_example : IsStated reading resumed_manifest 0 resumed.entries resumed.new_attempts
main-IsStated_example =
    main-IsStated lab reading gate at_most_one [] (some begun) tt resumed_manifest 0 resumed_ends
