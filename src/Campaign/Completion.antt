-- ===== src/Campaign/Completion.antt =====
-- A campaign comes to its end.
use qos_extended_mros2_esp.Base.{
  ℕ, ◌≡◌, refl, ap, ◌∙◌, subst, Bool, true, false, List, [], ◌∷◌, Option, none, length, filter, any,
  All, All-mono, arith, inl, inr,
}
use qos_extended_mros2_esp.Base.Result.{Result, ok}
use qos_extended_mros2_esp.Campaign.{
  CampaignError, Gate, Kind, CaseRow, Reading, CaseEntry, any_fatal, Ledgers, is_unit, is_hardware,
  join_ledgers, no_ledgers, rebuild_ledgers, Surroundings, Progress, going, CampaignOptions,
  CampaignManifest, complete, ends, manifest_with, is_complete, conclude, outcome_of, outcome_after,
  open_output, bad_most, finish_campaign, run_case, run_cases, run_campaign, main,
}
use qos_extended_mros2_esp.Campaign.Accepted.{passing_cases, IsTally}
use qos_extended_mros2_esp.Campaign.Tally.{rebuild_ledgers-IsTally}
use qos_extended_mros2_esp.Campaign.Settled.{IsSettled, IsReady, rebuild_entry-IsReady}
use qos_extended_mros2_esp.Campaign.Attempts.{IsHelpful, run_case-IsSettled}

-- The cases of a kind.
abbrev pub cases_of : (Kind → Bool) → List CaseEntry → ℕ
cases_of of_kind entries = length (filter (λ entry. of_kind entry.row.kind) entries)

module _ (reading : Reading) where
  rebuild_ledgers-IsReady :
      (entries : List CaseEntry)
      → All (IsReady reading) entries
      → (ledgers : Ledgers) × (rebuild_ledgers reading entries ≡ (entries, ok ledgers))
  unfolding rebuild_ledgers
  rebuild_ledgers-IsReady [] h = (no_ledgers, refl)
  rebuild_ledgers-IsReady (entry ∷ entries) (ready, all) =
      let (first, one) = rebuild_entry-IsReady reading entry ready in
      let (others, rest) = rebuild_ledgers-IsReady entries all in
      (
        join_ledgers first others,
        rw (ap (λ (x : CaseEntry × Result CampaignError Ledgers). x.1) one, rest, rebuild_ledgers)
            (ap
              (λ (x : CaseEntry × Result CampaignError Ledgers).
                (x.0 ∷ entries, ok (join_ledgers first others)))
              one),
      )

  IsReady-fine : (entry : CaseEntry) → IsReady reading entry → any_fatal entry.attempts ≡ false
  IsReady-fine entry (inl (_, _, _, fine)) = fine
  IsReady-fine entry (inr (_, fine)) = fine

  all_fine :
      (entries : List CaseEntry)
      → All (IsReady reading) entries
      → any (λ entry. any_fatal entry.attempts) entries ≡ false
  all_fine [] h = refl
  all_fine (entry ∷ entries) (ready, all) =
      ground (arith, IsReady-fine entry ready, all_fine entries all)

  settled-IsReady :
      (entries : List CaseEntry) → All (IsSettled reading) entries → All (IsReady reading) entries
  settled-IsReady entries all = All-mono entries (λ entry settled. inr settled) all

  ready-IsTally :
      (entries : List CaseEntry)
      → All (IsReady reading) entries
      → (ledgers : Ledgers) × ((rebuild_ledgers reading entries).0 ≡ entries)
        × ((rebuild_ledgers reading entries).1 ≡ ok ledgers)
        × IsTally reading entries ledgers
        × (ledgers.fatal ≡ false)
  ready-IsTally entries ready =
      let (ledgers, rebuilt) = rebuild_ledgers-IsReady entries ready in
      let read : (rebuild_ledgers reading entries).1 ≡ ok ledgers =
        ap (λ (x : List CaseEntry × Result CampaignError Ledgers). x.1) rebuilt in
      let same : (rebuild_ledgers reading entries).0 ≡ entries =
        ap (λ (x : List CaseEntry × Result CampaignError Ledgers). x.0) rebuilt in
      let (audited, counts, fatal) : IsTally reading entries ledgers =
        subst (λ es. IsTally reading es ledgers) same
          (rebuild_ledgers-IsTally reading entries ledgers read) in
      (ledgers, same, read, (audited, counts, fatal), fatal ∙ all_fine entries ready)

  settled_pass :
      (of_kind : Kind → Bool) (entries : List CaseEntry)
      → All (IsSettled reading) entries
      → passing_cases reading of_kind entries ≡ cases_of of_kind entries
  settled_pass of_kind [] h = refl
  settled_pass of_kind (entry ∷ entries) (((n, files, one, receipt), fine), all) =
      ground (arith, one, settled_pass of_kind entries all)

module _ {World : Type 0} (outside : Surroundings World) (reading : Reading) (gate : Gate)
    (helpful : IsHelpful outside reading gate) where
  run_cases-IsSettled :
      (entries : List CaseEntry) (p : Progress World)
      → All (IsReady reading) entries
      → let ran = run_cases outside reading gate none entries p in
        (ran.1.1 ≡ going)
        × All (IsSettled reading) ran.0
        × ((of_kind : Kind → Bool) → cases_of of_kind ran.0 ≡ cases_of of_kind entries)
  unfolding run_cases
  run_cases-IsSettled [] p h = (refl, tt, λ of_kind. refl)
  run_cases-IsSettled (entry ∷ entries) p (ready, all) =
      let ran = run_case outside reading gate none entry p in
      let (goes, row, settled) = run_case-IsSettled outside reading gate helpful entry p ready in
      let (rest_goes, rest, counts) = run_cases-IsSettled entries ran.1.0 all in
      rw (goes, run_cases)
        (rest_goes, (settled, rest), λ of_kind. ground (arith, row, counts of_kind))

  -- All cases are settled and there are as many as it takes.
  abbrev IsFull : List CaseEntry → Type 0
  IsFull entries =
      All (IsSettled reading) entries
      × (cases_of is_unit entries ≡ 27)
      × (cases_of is_hardware entries ≡ 32)

  finish_campaign-IsFull :
      (entries : List CaseEntry) (made : ℕ)
      → IsFull entries
      → (manifest : CampaignManifest) × ((finish_campaign reading entries made going).outcome
          ≡ ends manifest 0)
        × (manifest.status ≡ complete)
  unfolding finish_campaign outcome_after outcome_of conclude
  finish_campaign-IsFull entries made (settled, units, hardware_cases) =
      let (ledgers, same, read, (audited, counts, _), fine) =
        ready-IsTally reading entries (settled-IsReady reading entries settled) in
      let all : is_complete ledgers ≡ true = ground (
        arith,
        counts is_unit ∙ settled_pass reading is_unit entries settled ∙ units,
        counts is_hardware ∙ settled_pass reading is_hardware entries settled ∙ hardware_cases,
        fine,
      ) in
      (manifest_with ledgers made complete, rw (read, all) refl, refl)

  run_campaign-completes :
      (entries : List CaseEntry) (world : World)
      → All (IsReady reading) entries
      → cases_of is_unit entries ≡ 27
      → cases_of is_hardware entries ≡ 32
      → (manifest : CampaignManifest) × ((run_campaign outside reading gate none entries
            world).outcome
          ≡ ends manifest 0)
        × (manifest.status ≡ complete)
  unfolding run_campaign
  run_campaign-completes entries world ready units hardware_cases =
      let (ledgers, same, read, _, fine) = ready-IsTally reading entries ready in
      let start : Progress World = record { world = world; new_attempts = 0 } in
      let ran = run_cases outside reading gate none entries start in
      let (goes, settled, counts) = run_cases-IsSettled entries start ready in
      let (manifest, ended, status) =
        finish_campaign-IsFull ran.0 ran.1.0.new_attempts
          (settled, counts is_unit ∙ units, counts is_hardware ∙ hardware_cases) in
      (
        manifest,
        rw (read, same, fine, run_campaign)
            (ap (λ k. (finish_campaign reading ran.0 ran.1.0.new_attempts k).outcome) goes ∙ ended),
        status,
      )

  -- A campaign ends: started or resumed without `--max-new-attempts` and not as a dry run, on
  -- 27 unit and 32 hardware cases that are ready, it returns 0 with the status COMPLETE, where the
  -- machine stays as the gate says, no attempt leaves a fatal marker and each case passes with
  -- its third attempt, if not before. A case is ready when it is accepted with the receipt of its
  -- one passing attempt, or has no passing attempt, no receipt and at most two attempts, and none
  -- of its attempts is fatal.
  pub main-completes :
      (options : CampaignOptions) (rows : List CaseRow) (output : Option (List CaseEntry))
      (entries : List CaseEntry) (world : World)
      → options.max_new_attempts ≡ none
      → options.dry_run ≡ false
      → open_output options.resume rows output ≡ ok entries
      → All (IsReady reading) entries
      → cases_of is_unit entries ≡ 27
      → cases_of is_hardware entries ≡ 32
      → (manifest : CampaignManifest) × ((main outside reading gate options rows output
            world).outcome
          ≡ ends manifest 0)
        × (manifest.status ≡ complete)
  unfolding main
  main-completes options rows output entries world unbounded wet opened ready units hardware_cases =
      let next = (outside.observe world).0 in
      let (manifest, ended, status) =
        run_campaign-completes entries next ready units hardware_cases in
      (
        manifest,
        rw (ap bad_most unbounded, helpful.fits world, wet, opened, unbounded, main) ended,
        status,
      )
