-- ===== src/Campaign/Settled.antt =====
-- Cases that a campaign can go on with, and how a case comes to be accepted.
use qos_extended_mros2_esp.Base.{
  ℕ, ◌+◌, ◌≤◌, ◌≡◌, refl, ◌∙◌, subst, String, true, false, ◌||◌, List, [], ◌∷◌, ◌++◌, Option, none,
  some, length, string_eq, nat_eq, if◌then◌else◌, arith, Option-cases, ◌⊎◌, inl, inr,
}
use qos_extended_mros2_esp.Base.Result.{ok}
use qos_extended_mros2_esp.Campaign.{
  Kind, unit, hardware, CaseRow, Files, Reading, Receipt, CaseEntry, is_passing, passing_from,
  only_passing, accepted_attempt, firmware_of, receipt_of, record_receipt, same_files,
  same_firmware, attempt_inventory, verify_receipt, any_fatal, verify_stored, accept_entry,
  rebuild_entry, case_ledgers, accepted_row, Ledgers,
}
use qos_extended_mros2_esp.Campaign.Accepted.{IsUnaccepted, IsAccepted, IsReceiptOf, IsFirmware}

-- No attempt passes, or is fatal, and at least one is left.
abbrev pub IsOpen : Reading → CaseEntry → Type 0
IsOpen reading entry =
    IsUnaccepted reading entry
    × (length entry.attempts ≤ 2)
    × (entry.receipt ≡ none)
    × (any_fatal entry.attempts ≡ false)

abbrev pub IsSettled : Reading → CaseEntry → Type 0
IsSettled reading entry = IsAccepted reading entry × (any_fatal entry.attempts ≡ false)

abbrev pub IsReady : Reading → CaseEntry → Type 0
IsReady reading entry = IsOpen reading entry ⊎ IsSettled reading entry

pub any_fatal-append : (xs ys : List Files) → any_fatal (xs ++ ys) ≡ any_fatal xs || any_fatal ys
unfolding any_fatal
any_fatal-append [] ys = refl
any_fatal-append (x ∷ xs) ys = ground (arith, any_fatal-append xs ys)

firmware_of-IsFirmware : (row : CaseRow) (kind : Kind) → IsFirmware row kind (firmware_of row kind)
unfolding firmware_of
firmware_of-IsFirmware row unit = tt
firmware_of-IsFirmware row hardware = refl

IsFirmware-same_firmware :
    (row : CaseRow) (kind : Kind) (firmware : Option (String × String))
    → IsFirmware row kind firmware
    → same_firmware row kind firmware ≡ true
unfolding same_firmware
IsFirmware-same_firmware row unit firmware h = refl
IsFirmware-same_firmware row hardware none h = absurd (ground arith)
IsFirmware-same_firmware row hardware (some (firmware, manifest)) h = ground arith

same_files_refl : (xs : List (String × String)) → same_files xs xs ≡ true
unfolding same_files
same_files_refl [] = refl
same_files_refl ((p, c) ∷ xs) = ground (arith, same_files_refl xs)

module _ (reading : Reading) where
  pub passing_from-append :
      (kind : Kind) (n : ℕ) (xs : List Files) (files : Files)
      → passing_from reading kind n xs ≡ []
      → passing_from reading kind n (xs ++ files ∷ [])
        ≡ (if is_passing reading kind files then (n + length xs, files) ∷ [] else [])
  unfolding passing_from
  passing_from-append kind n [] files h = ground arith
  passing_from-append kind n (x ∷ xs) files h =
      ground (arith, passing_from-append kind (n + 1) xs files)

  -- A receipt that is as it should be is found so.
  IsReceiptOf-verify_stored :
      (row : CaseRow) (receipt : Option Receipt) (n : ℕ) (files : Files)
      → IsReceiptOf reading row n files receipt
      → verify_stored reading row receipt n files ≡ ok tt
  unfolding verify_stored verify_receipt
  IsReceiptOf-verify_stored row none n files h = absurd h
  IsReceiptOf-verify_stored row (some receipt) n files (attempt, contents, firmware) = ground (
    arith,
    same_files_refl (attempt_inventory reading files),
    IsFirmware-same_firmware row row.kind receipt.firmware firmware,
  )

  record_receipt_stays :
      (entry : CaseEntry) (n : ℕ) (files : Files)
      → IsReceiptOf reading entry.row n files entry.receipt
      → record_receipt reading entry n files ≡ ok entry
  unfolding record_receipt
  record_receipt_stays entry n files h = elim (Option-cases entry.receipt) [
    | inl missing ↦ absurd (subst (IsReceiptOf reading entry.row n files) missing h)
    | inr (receipt, there) ↦ ground (arith, there)
  ]

  pub record_receipt_new :
      (entry : CaseEntry) (n : ℕ) (files : Files)
      → entry.receipt ≡ none
      → is_passing reading entry.row.kind files ≡ true
      → record_receipt reading entry n files
        ≡ ok (record entry { receipt = some (receipt_of reading entry.row n files) })
  unfolding record_receipt
  record_receipt_new entry n files missing passes = rw (missing, passes, record_receipt) refl

  accept_entry_stays :
      (entry : CaseEntry) (n : ℕ) (files : Files)
      → IsReceiptOf reading entry.row n files entry.receipt
      → accept_entry reading entry (some (n, files))
        ≡ (entry, ok (case_ledgers reading entry (accepted_row entry.row n ∷ [])))
  unfolding accept_entry
  accept_entry_stays entry n files h =
      rw
        (
          record_receipt_stays entry n files h,
          IsReceiptOf-verify_stored entry.row entry.receipt n files h,
          accept_entry,
        )
        refl

  -- Rebuilding the ledgers finds nothing to write or to refuse in a case that is ready.
  pub rebuild_entry-IsReady :
      (entry : CaseEntry)
      → IsReady reading entry
      → (ledgers : Ledgers) × (rebuild_entry reading entry ≡ (entry, ok ledgers))
  unfolding rebuild_entry accepted_attempt only_passing accept_entry
  rebuild_entry-IsReady entry (inl (missing, _, _, _)) =
      (case_ledgers reading entry [], rw (missing, rebuild_entry) refl)
  rebuild_entry-IsReady entry (inr ((n, files, one, receipt), _)) = (
    case_ledgers reading entry (accepted_row entry.row n ∷ []),
    rw (one, rebuild_entry) (accept_entry_stays entry n files receipt),
  )

  -- A first passing attempt, after others that do not pass, is accepted.
  pub received-IsAccepted :
      (entry : CaseEntry) (files : Files)
      → IsOpen reading entry
      → is_passing reading entry.row.kind files ≡ true
      → IsAccepted reading (record entry {
        attempts = entry.attempts ++ files ∷ [];
        receipt = some (receipt_of reading entry.row (length entry.attempts) files);
      })
  unfolding receipt_of
  received-IsAccepted entry files (missing, _, _, _) passes = (
    length entry.attempts,
    files,
    passing_from-append entry.row.kind 0 entry.attempts files missing ∙ ground (arith, passes),
    (refl, refl, firmware_of-IsFirmware entry.row entry.row.kind),
  )
