-- ===== src/Campaign/Manifest.antt =====
-- What a campaign's manifest states of the output.
use qos_extended_mros2_esp.Base.{
  ℕ, ◌≡◌, refl, subst, Bool, true, false, not, ◌&&◌, eqb, if◌then◌else◌, List, Option, none, some,
  any, All, arith, Bool-cases, inl, inr,
}
use qos_extended_mros2_esp.Base.Int.{ℤ}
use qos_extended_mros2_esp.Base.Result.{Result, ok, err, Result-cases}
use qos_extended_mros2_esp.Campaign.{
  CampaignError, Gate, check_environment, CaseRow, Reading, CaseEntry, Ledgers, is_unit,
  is_hardware, any_fatal, rebuild_ledgers, Surroundings, CampaignOptions, CampaignReport,
  CampaignManifest, Status, complete, in_progress, failed, Outcome, raises, dry_run_passes, ends,
  Ending, going, stopped, fatal_seen, exhausted, raised, manifest_with, is_complete, conclude,
  outcome_of, outcome_after, left_alone, open_output, bad_most, finish_campaign, run_cases,
  run_campaign, main,
}
use qos_extended_mros2_esp.Campaign.Accepted.{IsAudited, passing_cases, IsTally}
use qos_extended_mros2_esp.Campaign.Tally.{rebuild_ledgers-IsTally}

-- A complete campaign has 27 unit and 32 hardware cases and no fatal attempt; one that is in
-- progress has not; a failed one exits with the code 1.
abbrev pub IsStatus : CampaignManifest → Status → ℕ → Type 0
IsStatus manifest complete code =
    (code ≡ 0)
    × (manifest.accepted_unit ≡ 27)
    × (manifest.accepted_hardware ≡ 32)
    × (manifest.fatal ≡ false)
IsStatus manifest in_progress code =
    (eqb manifest.accepted_unit 27 && eqb manifest.accepted_hardware 32 && not manifest.fatal)
    ≡ false
IsStatus manifest failed code = code ≡ 1

-- What a manifest and the code say of the output and of the new attempts.
abbrev pub IsStated : Reading → CampaignManifest → ℕ → Option (List CaseEntry) → ℕ → Type 0
IsStated reading manifest code none made = ⊥
IsStated reading manifest code (some entries) made =
    All (IsAudited reading) entries
    × (manifest.accepted_unit ≡ passing_cases reading is_unit entries)
    × (manifest.accepted_hardware ≡ passing_cases reading is_hardware entries)
    × (manifest.fatal ≡ any (λ entry. any_fatal entry.attempts) entries)
    × (manifest.new_attempts ≡ made)
    × IsStatus manifest manifest.status code

-- The same, for whichever outcome.
abbrev IsSound : Reading → Option (List CaseEntry) → ℕ → Outcome → Type 0
IsSound reading output made (raises e) = Unit
IsSound reading output made dry_run_passes = Unit
IsSound reading output made (ends manifest code) = IsStated reading manifest code output made

tally-IsStated :
    (reading : Reading) (entries : List CaseEntry) (ledgers : Ledgers) (made : ℕ) (status : Status)
    (code : ℕ)
    → IsTally reading entries ledgers
    → IsStatus (manifest_with ledgers made status) status code
    → IsStated reading (manifest_with ledgers made status) code (some entries) made
tally-IsStated reading entries ledgers made status code (all, counts, fatal) h =
    (all, counts is_unit, counts is_hardware, fatal, refl, h)

conclude-IsSound :
    (reading : Reading) (entries : List CaseEntry) (ledgers : Ledgers) (made : ℕ)
    (is_stopped : Bool)
    → IsTally reading entries ledgers
    → IsSound reading (some entries) made (conclude ledgers made is_stopped)
unfolding conclude
conclude-IsSound reading entries ledgers made is_stopped tally =
    let code : ℕ = if is_stopped then 0 else 1 in
    elim (Bool-cases (is_complete ledgers)) [
      | inl all ↦
          rw (all, conclude)
            (tally-IsStated reading entries ledgers made complete 0 tally
              (refl, ground (arith, all), ground (arith, all), ground (arith, all)))
      | inr missing ↦
          rw (missing, conclude)
            (tally-IsStated reading entries ledgers made in_progress code tally missing)
    ]

outcome_of-IsSound :
    (reading : Reading) (entries : List CaseEntry) (ledgers : Ledgers) (made : ℕ) (ending : Ending)
    → IsTally reading entries ledgers
    → IsSound reading (some entries) made (outcome_of ending ledgers made)
unfolding outcome_of
outcome_of-IsSound reading entries ledgers made going tally =
    conclude-IsSound reading entries ledgers made false tally
outcome_of-IsSound reading entries ledgers made stopped tally =
    conclude-IsSound reading entries ledgers made true tally
outcome_of-IsSound reading entries ledgers made fatal_seen tally =
    tally-IsStated reading entries ledgers made failed 1 tally refl
outcome_of-IsSound reading entries ledgers made exhausted tally =
    tally-IsStated reading entries ledgers made failed 1 tally refl
outcome_of-IsSound reading entries ledgers made (raised e) tally = tt

outcome_after-IsSound :
    (reading : Reading) (entries : List CaseEntry) (rebuilt : Result CampaignError Ledgers)
    (made : ℕ) (ending : Ending)
    → ((ledgers : Ledgers) → rebuilt ≡ ok ledgers → IsTally reading entries ledgers)
    → IsSound reading (some entries) made (outcome_after rebuilt ending made)
unfolding outcome_after
outcome_after-IsSound reading entries (err e) made ending tally = tt
outcome_after-IsSound reading entries (ok ledgers) made ending tally =
    outcome_of-IsSound reading entries ledgers made ending (tally ledgers refl)

abbrev IsSoundReport : Reading → CampaignReport → Type 0
IsSoundReport reading report = IsSound reading report.entries report.new_attempts report.outcome

if-IsSoundReport :
    (reading : Reading) (test : Bool) (a b : CampaignReport)
    → IsSoundReport reading a
    → IsSoundReport reading b
    → IsSoundReport reading (if test then a else b)
if-IsSoundReport reading true a b h k = h
if-IsSoundReport reading false a b h k = k

module _ (reading : Reading) where
  finish_campaign-IsSoundReport :
      (entries : List CaseEntry) (made : ℕ) (ending : Ending)
      → IsSoundReport reading (finish_campaign reading entries made ending)
  unfolding finish_campaign
  finish_campaign-IsSoundReport entries made ending =
      let rebuilt = rebuild_ledgers reading entries in
      let sound : (k : Ending)
          → IsSound reading (some rebuilt.0) made (outcome_after rebuilt.1 k made) =
        λ k.
          outcome_after-IsSound reading rebuilt.0 rebuilt.1 made k
            (rebuild_ledgers-IsTally reading entries) in
      elim ending
        as (λ (k : Ending). IsSoundReport reading (finish_campaign reading entries made k)) [
          | raised e ↦ tt
          | going ↦ sound going
          | stopped ↦ sound stopped
          | fatal_seen ↦ sound fatal_seen
          | exhausted ↦ sound exhausted
        ]

module _ {World : Type 0} (outside : Surroundings World) (reading : Reading) (gate : Gate) where
  run_campaign-IsSoundReport :
      (most : Option ℤ) (entries : List CaseEntry) (world : World)
      → IsSoundReport reading (run_campaign outside reading gate most entries world)
  unfolding run_campaign
  run_campaign-IsSoundReport most entries world =
      let rebuilt = rebuild_ledgers reading entries in
      elim (Result-cases rebuilt.1) [
        | inl (e, refused) ↦ rw (refused, run_campaign) tt
        | inr (ledgers, there) ↦
            let ran =
              run_cases outside reading gate most rebuilt.0
                (record { world = world; new_attempts = 0 }) in
            rw (there, run_campaign)
              (if-IsSoundReport reading ledgers.fatal
                (left_alone (some rebuilt.0) (ends (manifest_with ledgers 0 failed) 1))
                (finish_campaign reading ran.0 ran.1.0.new_attempts ran.1.1)
                (tally-IsStated reading rebuilt.0 ledgers 0 failed 1
                  (rebuild_ledgers-IsTally reading entries ledgers there) refl)
                (finish_campaign-IsSoundReport reading ran.0 ran.1.0.new_attempts ran.1.1))
      ]

  main-IsSoundReport :
      (options : CampaignOptions) (rows : List CaseRow) (output : Option (List CaseEntry))
      (world : World)
      → IsSoundReport reading (main outside reading gate options rows output world)
  unfolding main
  main-IsSoundReport options rows output world =
      let most = options.max_new_attempts in
      let seen = outside.observe world in
      elim (Bool-cases (bad_most most)) [
        | inl bad ↦ rw (bad, main) tt
        | inr fine ↦
            rw (fine, main)
              (elim (Result-cases (check_environment reading.canonical_sha256 gate seen.1)) [
                | inl (e, differs) ↦ rw differs tt
                | inr (_, fits) ↦ rw fits (elim (Bool-cases options.dry_run) [
                  | inl dry ↦ rw dry tt
                  | inr wet ↦ rw wet (elim (Result-cases (open_output options.resume rows output)) [
                    | inl (e, refused) ↦ rw refused tt
                    | inr (entries, opened) ↦
                        rw opened (run_campaign-IsSoundReport most entries seen.0)
                  ])
                ])
              ])
      ]

  -- What the manifest of a campaign states is so, whichever way the campaign ends that writes it: the
  -- accepted cases of each kind are the cases of the output with a passing attempt, each of
  -- which has a receipt that names its one passing attempt with the digests of its files and, for
  -- a hardware case, of the firmware; the mark of a fatal attempt is set exactly where the output
  -- has one; and the new attempts are those that were made. The status is COMPLETE, with the code
  -- 0, only with 27 unit and 32 hardware cases and no fatal attempt, IN_PROGRESS only without
  -- them, and FAILED with the code 1.
  pub main-IsStated :
      (options : CampaignOptions) (rows : List CaseRow) (output : Option (List CaseEntry))
      (world : World) (manifest : CampaignManifest) (code : ℕ)
      → (main outside reading gate options rows output world).outcome ≡ ends manifest code
      → let report = main outside reading gate options rows output world in
        IsStated reading manifest code report.entries report.new_attempts
  main-IsStated options rows output world manifest code h =
      let report = main outside reading gate options rows output world in
      subst (IsSound reading report.entries report.new_attempts) h
        (main-IsSoundReport options rows output world)
