-- ===== src/Campaign/Store.antt =====
-- The directories of a campaign: the attempts of a case in order, each with its files, and the
-- receipt of the case. `attempt_01` is the attempt with the index 0.
use qos_extended_mros2_esp.Base.{
  ℕ, ◌+◌, ◌<>◌, String, Bool, true, false, not, ◌&&◌, ◌||◌, List, [], ◌∷◌, Option, none, some, map,
  any, eqb, ◌==◌, string_eq, nat_eq, option_eq, if◌then◌else◌,
}
use qos_extended_mros2_esp.Base.Dict.{Dict, lookup}
use qos_extended_mros2_esp.Base.Order.{sort_with}
use qos_extended_mros2_esp.Base.Result.{Result, ok, err, ◌>>◌, raise_if}
use qos_extended_mros2_esp.Base.Text.{codes, lower, text_le}
use qos_extended_mros2_esp.Board.{occurs}
use qos_extended_mros2_esp.Campaign.Environment.{
  CampaignError, multiple_passing, cannot_accept, path_drift, file_drift, firmware_drift,
}

pub data Kind : Type 0 where
  unit hardware : Kind

pub record CaseRow : Type 0 where
  pub kind : Kind
  pub ordinal : ℕ
  pub claim_ordinal : String
  pub case_id : String
  pub policy : String
  pub firmware_sha256 : String
  pub artifact_manifest_sha256 : String

-- The files below a directory, by their paths from it.
abbrev pub Files : Type 0
Files = Dict String String

-- The `status` and the `error` of a report.
pub record StatusReport : Type 0 where
  pub status : Option String
  pub error : Option String

-- SHA-256, and the reading of a report as JSON, `none` where it is no JSON.
pub record Reading : Type 0 where
  pub sha256 : String → String
  pub canonical_sha256 : String → String
  pub load_report : String → Option StatusReport

pub record Receipt : Type 0 where
  pub ordinal : ℕ
  pub case_id : String
  pub attempt : ℕ
  pub attempt_files : List (String × String)
  pub firmware : Option (String × String)

-- What the output holds of one case.
pub record CaseEntry : Type 0 where
  pub row : CaseRow
  pub attempts : List Files
  pub receipt : Option Receipt

abbrev pub report_name : Kind → String
report_name unit = "unit_case_report.json"
report_name hardware = "run_metadata.json"

-- `report.get("status", "UNKNOWN")`, and `report.get("error") or ""`.
abbrev pub or_text : Option String → String → String
or_text none text = text
or_text (some s) text = s

unfoldable pub only_passing : List (ℕ × Files) → Result CampaignError (Option (ℕ × Files))
only_passing [] = ok none
only_passing (attempt ∷ []) = ok (some attempt)
only_passing (attempt ∷ other ∷ more) = err multiple_passing

-- The digests that a receipt of a hardware case has besides.
unfoldable pub firmware_of : CaseRow → Kind → Option (String × String)
firmware_of row unit = none
firmware_of row hardware = some (row.firmware_sha256, row.artifact_manifest_sha256)

module _ (reading : Reading) where
  unfoldable pub read_status : Kind → Files → String × String
  read_status kind files = elim (lookup (report_name kind) files) [
    | none ↦ ("INTERRUPTED", "missing terminal report")
    | some text ↦ elim (reading.load_report text) [
      | none ↦ ("UNREADABLE", "JSONDecodeError")
      | some report ↦ (or_text report.status "UNKNOWN", or_text report.error "")
    ]
  ]

  abbrev pub is_passing : Kind → Files → Bool
  is_passing kind files = (read_status kind files).0 == "PASS"

  -- `attempt_inventory`, in the order of the paths' texts.
  unfoldable pub attempt_inventory : Files → List (String × String)
  attempt_inventory files =
      map (λ (file : String × String). (file.0, reading.sha256 file.1))
        (sort_with (λ (a b : String × String). text_le a.0 b.0) files)

  -- The passing attempts with their indices, from an index on.
  unfoldable pub passing_from : Kind → ℕ → List Files → List (ℕ × Files)
  passing_from kind n [] = []
  passing_from kind n (files ∷ attempts) =
      let rest = passing_from kind (n + 1) attempts in
      if is_passing kind files then (n, files) ∷ rest else rest

  unfoldable pub accepted_attempt : CaseEntry → Result CampaignError (Option (ℕ × Files))
  accepted_attempt entry = only_passing (passing_from entry.row.kind 0 entry.attempts)

  unfoldable pub receipt_of : CaseRow → ℕ → Files → Receipt
  receipt_of row n files = record {
    ordinal = row.ordinal;
    case_id = row.case_id;
    attempt = n;
    attempt_files = attempt_inventory files;
    firmware = firmware_of row row.kind;
  }

  -- A receipt that is there stays.
  unfoldable pub record_receipt : CaseEntry → ℕ → Files → Result CampaignError CaseEntry
  record_receipt entry n files = elim entry.receipt [
    | some receipt ↦ ok entry
    | none ↦
        raise_if (not (is_passing entry.row.kind files)) cannot_accept
        >> ok (record entry { receipt = some (receipt_of entry.row n files) })
  ]

-- `==` of two inventories.
unfoldable pub same_files : List (String × String) → List (String × String) → Bool
same_files [] [] = true
same_files [] (b ∷ bs) = false
same_files (a ∷ more) [] = false
same_files ((p, c) ∷ files) ((q, d) ∷ others) = p == q && c == d && same_files files others

-- The firmware test of a receipt; a unit case has none.
unfoldable pub same_firmware : CaseRow → Kind → Option (String × String) → Bool
same_firmware row unit firmware = true
same_firmware row hardware none = false
same_firmware row hardware (some (firmware, manifest)) =
    firmware == row.firmware_sha256 && manifest == row.artifact_manifest_sha256

module _ (reading : Reading) where
  unfoldable pub verify_receipt : CaseRow → Receipt → ℕ → Files → Result CampaignError (Unit {0})
  verify_receipt row receipt n files = do
    raise_if (not (receipt.attempt == n)) path_drift
    raise_if (not (same_files receipt.attempt_files (attempt_inventory reading files))) file_drift
    raise_if (not (same_firmware row row.kind receipt.firmware)) firmware_drift

-- The expressions of `FATAL_RE`.
abbrev pub fatal_markers : List String
fatal_markers =
    "guru meditation" ∷ "watchdog" ∷ "backtrace:" ∷ "stack overflow" ∷ "heap corruption"
    ∷ "assert failed" ∷ "loadprohibited" ∷ "storeprohibited" ∷ []

abbrev pub is_ending : List ℕ → Bool
is_ending (a ∷ b ∷ c ∷ d ∷ []) = eqb a b'.' && eqb b b'l' && eqb c b'o' && eqb d b'g'
is_ending _ = false

-- A path that the pattern `*.log` matches: no directory, and the ending `.log`.
unfoldable pub is_log_name : List ℕ → Bool
is_log_name [] = false
is_log_name (c ∷ cs) = not (eqb c b'/') && (is_ending (c ∷ cs) || is_log_name cs)

unfoldable pub log_text : Files → String
log_text [] = ""
log_text ((path, text) ∷ files) =
    let rest = log_text files in if is_log_name (codes path) then text <> rest else rest

unfoldable pub fatal_attempt : Files → Bool
fatal_attempt files = any (λ marker. occurs marker (lower (log_text files))) fatal_markers
