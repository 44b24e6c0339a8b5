-- ===== src/Campaign/Tally.antt =====
-- The ledgers that `rebuild_ledgers` returns are the tally of the output.
use qos_extended_mros2_esp.Base.{
  ℕ, ◌≡◌, refl, sym, ap, ◌∙◌, subst, List, [], ◌∷◌, Option, none, some, arith, ◌⊎◌, inl, inr,
}
use qos_extended_mros2_esp.Base.Result.{ok, ◌>>=◌, ◌>>◌, Result-cases, >>=-eq-ok, ok_injective}
use qos_extended_mros2_esp.Campaign.{
  CaseRow, Files, Reading, CaseEntry, passing_from, only_passing, accepted_attempt, record_receipt,
  Ledgers, join_ledgers, accepted_row, case_ledgers, verify_stored, accept_entry, rebuild_entry,
  rebuild_ledgers,
}
use qos_extended_mros2_esp.Campaign.Growth.{record_receipt-Grows}
use qos_extended_mros2_esp.Campaign.Accepted.{
  IsAccepted, verify_stored-eq-ok, IsTally, IsTally-join, unaccepted-IsTally, accepted-IsTally,
}

module _ (reading : Reading) where
  only_passing-cases :
      (passing : List (ℕ × Files)) (found : Option (ℕ × Files))
      → only_passing passing ≡ ok found
      → ((found ≡ none) × (passing ≡ []))
        ⊎ ((attempt : ℕ × Files) × (found ≡ some attempt) × (passing ≡ attempt ∷ []))
  unfolding only_passing
  only_passing-cases [] found h = inl (sym (ok_injective h), refl)
  only_passing-cases (a ∷ []) found h = inr (a, sym (ok_injective h), refl)
  only_passing-cases (a ∷ b ∷ more) found h = absurd (ground arith)

  accept_entry-IsTally :
      (entry : CaseEntry) (n : ℕ) (files : Files) (ledgers : Ledgers)
      → passing_from reading entry.row.kind 0 entry.attempts ≡ (n, files) ∷ []
      → (accept_entry reading entry (some (n, files))).1 ≡ ok ledgers
      → IsTally reading ((accept_entry reading entry (some (n, files))).0 ∷ []) ledgers
  unfolding accept_entry
  accept_entry-IsTally entry n files ledgers one h =
      elim (Result-cases (record_receipt reading entry n files)) [
        | inl (e, refused) ↦ absurd (ground (arith, refused))
        | inr (received, there) ↦
            let ((row, _, _), same) = record_receipt-Grows reading entry received n files there in
            let rows = accepted_row entry.row n ∷ [] in
            let checked : (verify_stored reading received.row received.receipt n files
                  >> ok (case_ledgers reading received rows))
                ≡ ok ledgers =
              rw (there, accept_entry) at h in
            let (_, verified, stated) =
              >>=-eq-ok (verify_stored reading received.row received.receipt n files) _ checked in
            let accepted : IsAccepted reading received = (
              n,
              files,
              ap (λ (r : CaseRow). passing_from reading r.kind 0 received.attempts) row
                  ∙ ap (passing_from reading entry.row.kind 0) same
                  ∙ one,
              verify_stored-eq-ok reading received.row received.receipt n files verified,
            ) in
            rw (there, accept_entry)
              (subst (λ l. IsTally reading (received ∷ []) l) (ok_injective stated)
                (subst
                  (λ r.
                    IsTally reading (received ∷ [])
                      (case_ledgers reading received (accepted_row r n ∷ [])))
                  row (accepted-IsTally reading received accepted)))
      ]

  rebuild_entry-IsTally :
      (entry : CaseEntry) (ledgers : Ledgers)
      → (rebuild_entry reading entry).1 ≡ ok ledgers
      → IsTally reading ((rebuild_entry reading entry).0 ∷ []) ledgers
  unfolding rebuild_entry accept_entry accepted_attempt
  rebuild_entry-IsTally entry ledgers h =
      let passing = passing_from reading entry.row.kind 0 entry.attempts in
      elim (Result-cases (only_passing passing)) [
        | inl (e, many) ↦ absurd (ground (arith, many))
        | inr (found, there) ↦ elim (only_passing-cases passing found there) [
          | inl (missing, none_passes) ↦
              rw (there, missing, rebuild_entry)
                (subst (λ l. IsTally reading (entry ∷ []) l)
                  (ok_injective (rw (there, missing, rebuild_entry) at h))
                  (unaccepted-IsTally reading entry none_passes))
          | inr ((n, files), passes, one) ↦
              rw (there, passes, rebuild_entry)
                (accept_entry-IsTally entry n files ledgers one
                  (rw (there, passes, rebuild_entry) at h))
        ]
      ]

  pub rebuild_ledgers-IsTally :
      (entries : List CaseEntry) (ledgers : Ledgers)
      → (rebuild_ledgers reading entries).1 ≡ ok ledgers
      → IsTally reading (rebuild_ledgers reading entries).0 ledgers
  unfolding rebuild_ledgers
  rebuild_ledgers-IsTally [] ledgers h =
      subst (λ l. IsTally reading [] l) (ok_injective h) (tt, (λ of_kind. refl), refl)
  rebuild_ledgers-IsTally (entry ∷ entries) ledgers h =
      elim (Result-cases (rebuild_entry reading entry).1) [
        | inl (e, refused) ↦ absurd (ground (arith, refused))
        | inr (first, there) ↦
            let rest = rebuild_ledgers reading entries in
            let joined : (rest.1 >>= λ others. ok (join_ledgers first others)) ≡ ok ledgers =
              rw (there, rebuild_ledgers) at h in
            let (others, read, all) = >>=-eq-ok rest.1 _ joined in
            rw (there, rebuild_ledgers)
              (subst (λ l. IsTally reading ((rebuild_entry reading entry).0 ∷ rest.0) l)
                (ok_injective all)
                (IsTally-join reading (rebuild_entry reading entry).0 rest.0 first others
                  (rebuild_entry-IsTally entry first there)
                  (rebuild_ledgers-IsTally entries others read)))
      ]
