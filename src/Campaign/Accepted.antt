-- ===== src/Campaign/Accepted.antt =====
-- What the receipts of a campaign stand for.
use qos_extended_mros2_esp.Base.{
  ℕ, ◌≡◌, refl, ap, ◌∙◌, String, Bool, true, false, not, ◌&&◌, List, [], ◌∷◌, Option, none, some,
  ◌==◌, nat_eq, string_eq, length, any, filter, All, filter-append, length-append, arith, ◌⊎◌, inl,
  inr,
}
use qos_extended_mros2_esp.Base.Result.{ok, raise_if, >>=-eq-ok, raise_if-eq-ok}
use qos_extended_mros2_esp.Campaign.{
  path_drift, file_drift, firmware_drift, Kind, unit, hardware, CaseRow, Files, Reading, Receipt,
  CaseEntry, passing_from, same_files, same_firmware, attempt_inventory, verify_receipt, Ledgers,
  AcceptedRow, any_fatal, accepted_row, case_ledgers, join_ledgers, verify_stored,
}

-- A case without a passing attempt.
abbrev pub IsUnaccepted : Reading → CaseEntry → Type 0
IsUnaccepted reading entry = passing_from reading entry.row.kind 0 entry.attempts ≡ []

abbrev pub IsFirmware : CaseRow → Kind → Option (String × String) → Type 0
IsFirmware row unit firmware = Unit
IsFirmware row hardware firmware =
    firmware ≡ some (row.firmware_sha256, row.artifact_manifest_sha256)

same_firmware-IsFirmware :
    (row : CaseRow) (kind : Kind) (firmware : Option (String × String))
    → same_firmware row kind firmware ≡ true
    → IsFirmware row kind firmware
unfolding same_firmware
same_firmware-IsFirmware row unit firmware h = tt
same_firmware-IsFirmware row hardware none h = absurd (ground arith)
same_firmware-IsFirmware row hardware (some (firmware, manifest)) h = ground arith

same_files-eq : (xs ys : List (String × String)) → same_files xs ys ≡ true → xs ≡ ys
unfolding same_files
same_files-eq [] [] h = refl
same_files-eq [] (y ∷ ys) h = absurd (ground arith)
same_files-eq (x ∷ xs) [] h = absurd (ground arith)
same_files-eq ((p, c) ∷ xs) ((q, d) ∷ ys) h = ground (arith, same_files-eq xs ys)

-- The receipt is for the one attempt that passes: it names it, and it has the digests of its files
-- and, for a hardware case, of the firmware.
abbrev pub IsReceiptOf : Reading → CaseRow → ℕ → Files → Option Receipt → Type 0
IsReceiptOf reading row n files none = ⊥
IsReceiptOf reading row n files (some receipt) =
    (receipt.attempt ≡ n)
    × (receipt.attempt_files ≡ attempt_inventory reading files)
    × IsFirmware row row.kind receipt.firmware

abbrev pub IsAccepted : Reading → CaseEntry → Type 0
IsAccepted reading entry =
    (n : ℕ) × (files : Files) × (passing_from reading entry.row.kind 0 entry.attempts
      ≡ (n, files) ∷ [])
    × IsReceiptOf reading entry.row n files entry.receipt

-- The cases of a kind with a passing attempt.
abbrev pub has_passing : Reading → CaseEntry → Bool
has_passing reading entry = elim (passing_from reading entry.row.kind 0 entry.attempts) [
  | [] ↦ false
  | attempt ∷ more ↦ true
]

abbrev pub passing_cases : Reading → (Kind → Bool) → List CaseEntry → ℕ
passing_cases reading of_kind entries =
    length (filter (λ entry. of_kind entry.row.kind && has_passing reading entry) entries)

-- What one case has in its ledgers.
abbrev pub IsAudited : Reading → CaseEntry → Type 0
IsAudited reading entry = IsUnaccepted reading entry ⊎ IsAccepted reading entry

module _ (reading : Reading) where
  verify_receipt-eq-ok :
      (row : CaseRow) (receipt : Receipt) (n : ℕ) (files : Files) {u : Unit {0}}
      → verify_receipt reading row receipt n files ≡ ok u
      → IsReceiptOf reading row n files (some receipt)
  unfolding verify_receipt
  verify_receipt-eq-ok row receipt n files h =
      let (_, attempt, h1) = >>=-eq-ok (raise_if (not (receipt.attempt == n)) path_drift) _ h in
      let (_, contents, h2) =
        >>=-eq-ok
          (raise_if (not (same_files receipt.attempt_files (attempt_inventory reading files)))
            file_drift)
          _ h1 in
      let checked = raise_if-eq-ok _ firmware_drift h2 in
      (
        ground (arith, raise_if-eq-ok _ path_drift attempt),
        same_files-eq _ _ (ground (arith, raise_if-eq-ok _ file_drift contents)),
        same_firmware-IsFirmware row row.kind receipt.firmware (ground (arith, checked)),
      )

  pub verify_stored-eq-ok :
      (row : CaseRow) (receipt : Option Receipt) (n : ℕ) (files : Files) {u : Unit {0}}
      → verify_stored reading row receipt n files ≡ ok u
      → IsReceiptOf reading row n files receipt
  unfolding verify_stored
  verify_stored-eq-ok row none n files h = absurd (ground arith)
  verify_stored-eq-ok row (some receipt) n files h = verify_receipt-eq-ok row receipt n files h

  -- The ledgers of some cases: the accepted cases of a kind are those with a passing attempt, and
  -- the mark of a fatal attempt is set where an attempt is fatal.
  abbrev pub IsTally : List CaseEntry → Ledgers → Type 0
  IsTally entries ledgers =
      All (IsAudited reading) entries
      × ((of_kind : Kind → Bool)
          → length (filter (λ row. of_kind row.kind) ledgers.accepted)
            ≡ passing_cases reading of_kind entries)
      × (ledgers.fatal ≡ any (λ entry. any_fatal entry.attempts) entries)

  pub IsTally-join :
      (entry : CaseEntry) (entries : List CaseEntry) (first others : Ledgers)
      → IsTally (entry ∷ []) first
      → IsTally entries others
      → IsTally (entry ∷ entries) (join_ledgers first others)
  IsTally-join entry entries first others ((audited, _), counts, fatal) (all, counts2, fatal2) = (
    (audited, all),
    λ of_kind.
        let accepted_of : AcceptedRow → Bool = λ row. of_kind row.kind in
        ap length (filter-append accepted_of first.accepted others.accepted)
        ∙ length-append (filter accepted_of first.accepted) (filter accepted_of others.accepted)
        ∙ ground (arith, counts of_kind, counts2 of_kind),
    ground (arith, fatal, fatal2),
  )

  pub unaccepted-IsTally :
      (entry : CaseEntry)
      → IsUnaccepted reading entry
      → IsTally (entry ∷ []) (case_ledgers reading entry [])
  unfolding case_ledgers
  unaccepted-IsTally entry h = ((inl h, tt), λ of_kind. ground (arith, h), ground arith)

  pub accepted-IsTally :
      (entry : CaseEntry) (accepted : IsAccepted reading entry)
      → IsTally (entry ∷ []) (case_ledgers reading entry (accepted_row entry.row accepted.0 ∷ []))
  unfolding case_ledgers
  accepted-IsTally entry (n, files, one, receipt) =
      ((inr (n, files, one, receipt), tt), λ of_kind. ground (arith, one), ground arith)
