-- ===== src/Campaign/Rebuild.antt =====
-- `rebuild_ledgers`: the ledgers of a campaign's output. It returns what the output holds then as
-- well, since it writes the receipts that are missing; where it raises, it has not come to the
-- cases that follow.
use qos_extended_mros2_esp.Base.{
  ℕ, ◌+◌, String, Bool, true, false, ◌||◌, List, [], ◌∷◌, ◌++◌, Option, none, some, length, filter,
}
use qos_extended_mros2_esp.Base.Result.{Result, ok, err, ◌>>=◌, ◌>>◌}
use qos_extended_mros2_esp.Campaign.Environment.{CampaignError, no_receipt}
use qos_extended_mros2_esp.Campaign.Store.{
  Kind, unit, hardware, CaseRow, Files, Reading, CaseEntry, Receipt, read_status, accepted_attempt,
  record_receipt, verify_receipt, fatal_attempt,
}

pub record AttemptRow : Type 0 where
  pub kind : Kind
  pub ordinal : ℕ
  pub case_id : String
  pub attempt : ℕ
  pub status : String
  pub is_fatal : Bool
  pub error : String

pub record AcceptedRow : Type 0 where
  pub kind : Kind
  pub ordinal : ℕ
  pub claim_ordinal : String
  pub case_id : String
  pub policy : String
  pub attempt : ℕ

pub record Ledgers : Type 0 where
  pub attempts : List AttemptRow
  pub accepted : List AcceptedRow
  pub fatal : Bool

abbrev pub no_ledgers : Ledgers
no_ledgers = record { attempts = []; accepted = []; fatal = false }

abbrev pub join_ledgers : Ledgers → Ledgers → Ledgers
join_ledgers a b = record {
  attempts = a.attempts ++ b.attempts;
  accepted = a.accepted ++ b.accepted;
  fatal = a.fatal || b.fatal;
}

abbrev pub is_unit : Kind → Bool
is_unit unit = true
is_unit hardware = false

abbrev pub is_hardware : Kind → Bool
is_hardware unit = false
is_hardware hardware = true

-- `sum(row["kind"] == "unit" for row in accepted)`
abbrev pub accepted_unit : Ledgers → ℕ
accepted_unit ledgers = length (filter (λ row. is_unit row.kind) ledgers.accepted)

abbrev pub accepted_hardware : Ledgers → ℕ
accepted_hardware ledgers = length (filter (λ row. is_hardware row.kind) ledgers.accepted)

unfoldable pub any_fatal : List Files → Bool
any_fatal [] = false
any_fatal (files ∷ attempts) = fatal_attempt files || any_fatal attempts

abbrev pub accepted_row : CaseRow → ℕ → AcceptedRow
accepted_row row n = record {
  kind = row.kind;
  ordinal = row.ordinal;
  claim_ordinal = row.claim_ordinal;
  case_id = row.case_id;
  policy = row.policy;
  attempt = n;
}

module _ (reading : Reading) where
  unfoldable pub attempt_rows : CaseRow → ℕ → List Files → List AttemptRow
  attempt_rows row n [] = []
  attempt_rows row n (files ∷ attempts) =
      record {
        kind = row.kind;
        ordinal = row.ordinal;
        case_id = row.case_id;
        attempt = n;
        status = (read_status reading row.kind files).0;
        is_fatal = fatal_attempt files;
        error = (read_status reading row.kind files).1;
      }
      ∷ attempt_rows row (n + 1) attempts

  -- The rows of a case, and of its accepted attempt, if there is one.
  unfoldable pub case_ledgers : CaseEntry → List AcceptedRow → Ledgers
  case_ledgers entry accepted = record {
    attempts = attempt_rows entry.row 0 entry.attempts;
    accepted = accepted;
    fatal = any_fatal entry.attempts;
  }

  -- The receipt is read back.
  unfoldable pub verify_stored :
      CaseRow → Option Receipt → ℕ → Files → Result CampaignError (Unit {0})
  verify_stored row none n files = err no_receipt
  verify_stored row (some receipt) n files = verify_receipt reading row receipt n files

  unfoldable pub accept_entry :
      CaseEntry → Option (ℕ × Files) → CaseEntry × Result CampaignError Ledgers
  accept_entry entry none = (entry, ok (case_ledgers entry []))
  accept_entry entry (some (n, files)) = elim (record_receipt reading entry n files) [
    | err e ↦ (entry, err e)
    | ok received ↦ (
      received,
      verify_stored received.row received.receipt n files
          >> ok (case_ledgers received (accepted_row entry.row n ∷ [])),
    )
  ]

  unfoldable pub rebuild_entry : CaseEntry → CaseEntry × Result CampaignError Ledgers
  rebuild_entry entry = elim (accepted_attempt reading entry) [
    | err e ↦ (entry, err e)
    | ok passing ↦ accept_entry entry passing
  ]

  unfoldable pub rebuild_ledgers : List CaseEntry → List CaseEntry × Result CampaignError Ledgers
  rebuild_ledgers [] = ([], ok no_ledgers)
  rebuild_ledgers (entry ∷ entries) =
      let rebuilt = rebuild_entry entry in
      elim rebuilt.1 [
        | err e ↦ (rebuilt.0 ∷ entries, err e)
        | ok first ↦
            let rest = rebuild_ledgers entries in
            (rebuilt.0 ∷ rest.0, rest.1 >>= λ others. ok (join_ledgers first others))
      ]
