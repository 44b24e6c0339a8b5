-- ===== src/Campaign/Run.antt =====
-- `main`: the attempts that a campaign makes. A case has its attempts one after the other, at most
-- three; the first that passes is accepted.
use qos_extended_mros2_esp.Base.{
  ℕ, zero, suc, ◌+◌, ◌-◌, String, true, false, List, [], ◌∷◌, ◌++◌, Option, none, some, length, leb,
  if◌then◌else◌, string_eq,
}
use qos_extended_mros2_esp.Base.Dict.{insert}
use qos_extended_mros2_esp.Base.Int.{ℤ}
use qos_extended_mros2_esp.Base.Result.{Result, ok, err}
use qos_extended_mros2_esp.Campaign.Environment.{
  CampaignError, Gate, check_environment, bad_maximum,
}
use qos_extended_mros2_esp.Campaign.Store.{
  Kind, unit, hardware, CaseRow, Files, Reading, CaseEntry, is_passing, accepted_attempt,
  record_receipt, fatal_attempt,
}
use qos_extended_mros2_esp.Campaign.Rebuild.{rebuild_ledgers}
use qos_extended_mros2_esp.Campaign.Endings.{
  Surroundings, CampaignOptions, Ending, is_going, Progress, CampaignReport, max_attempts, is_spent,
  manifest_with, outcome_after, left_alone, open_output, bad_most, going, stopped, fatal_seen,
  exhausted, raised, failed, raises, dry_run_passes, ends,
}

module _ (reading : Reading) where
  -- What the files of a new attempt, the last of the entry, lead to; `none` is another attempt.
  unfoldable pub judge_attempt : CaseEntry → ℕ → Files → CaseEntry × Option Ending
  judge_attempt entry n files =
      if is_passing reading entry.row.kind files
      then elim (record_receipt reading entry n files) [
        | err e ↦ (entry, some (raised e))
        | ok received ↦ (received, some going)
      ]
      else (entry, if fatal_attempt files then some fatal_seen else none)

  -- The test after the loop.
  unfoldable pub settle : CaseEntry → Ending → Ending
  settle entry going = elim (accepted_attempt reading entry) [
    | err e ↦ raised e
    | ok (some attempt) ↦ going
    | ok none ↦ if leb max_attempts (length entry.attempts) then exhausted else going
  ]
  settle entry ending = ending

  -- The ledgers are rebuilt whichever way the cases end, but for an exception.
  unfoldable pub finish_campaign : List CaseEntry → ℕ → Ending → CampaignReport
  finish_campaign entries made (raised e) = record {
    entries = some entries;
    new_attempts = made;
    outcome = raises e;
  }
  finish_campaign entries made ending =
      let rebuilt = rebuild_ledgers reading entries in
      record {
        entries = some rebuilt.0;
        new_attempts = made;
        outcome = outcome_after rebuilt.1 ending made;
      }

module _ {World : Type 0} (outside : Surroundings World) (reading : Reading) (gate : Gate) where
  -- The files of an attempt after the runner: its text, and the row of the schedule.
  unfoldable pub finished : CaseRow → Files × String → Files
  finished row (files, text) =
      insert "frozen_schedule_row.json" (outside.row_text row) (insert "runner.log" text files)

  -- What is done before an attempt: nothing for a unit case.
  unfoldable pub prepare : Kind → World → World × Result CampaignError (Unit {0})
  prepare unit world = (world, ok tt)
  prepare hardware world =
      let seen = outside.observe world in
      (seen.0, check_environment reading.canonical_sha256 gate seen.1)

  unfoldable pub run_attempt : CaseEntry → World → World × (CaseEntry × Option Ending)
  run_attempt entry world =
      let n = length entry.attempts in
      let done = outside.run entry.row n world in
      let files = finished entry.row done.1 in
      (
        done.0,
        judge_attempt reading (record entry { attempts = entry.attempts ++ files ∷ [] }) n files,
      )

  -- One round of the loop over the attempts of a case.
  unfoldable pub start_attempt :
      Option ℤ → CaseEntry → Progress World → CaseEntry × (Progress World × Option Ending)
  start_attempt most entry p =
      if is_spent most p.new_attempts
      then (entry, (p, some stopped))
      else let ready = prepare entry.row.kind p.world in
        elim ready.1 [
          | err e ↦ (entry, (record p { world = ready.0 }, some (raised e)))
          | ok _ ↦
              let done = run_attempt entry ready.0 in
              (done.1.0, (record { world = done.0; new_attempts = p.new_attempts + 1 }, done.1.1))
        ]

  -- The loop, as long as the case has attempts left.
  unfoldable pub run_attempts :
      Option ℤ → ℕ → CaseEntry → Progress World → CaseEntry × (Progress World × Ending)
  run_attempts most zero entry p = (entry, (p, going))
  run_attempts most (suc left) entry p =
      let round = start_attempt most entry p in
      elim round.1.1 [
        | some ending ↦ (round.0, (round.1.0, ending))
        | none ↦ run_attempts most left round.0 round.1.0
      ]

  unfoldable pub run_case :
      Option ℤ → CaseEntry → Progress World → CaseEntry × (Progress World × Ending)
  run_case most entry p = elim (accepted_attempt reading entry) [
    | err e ↦ (entry, (p, raised e))
    | ok (some attempt) ↦ (entry, (p, going))
    | ok none ↦
        let ran = run_attempts most (max_attempts - length entry.attempts) entry p in
        (ran.0, (ran.1.0, settle reading ran.0 ran.1.1))
  ]

  unfoldable pub run_cases :
      Option ℤ → List CaseEntry → Progress World → List CaseEntry × (Progress World × Ending)
  run_cases most [] p = ([], (p, going))
  run_cases most (entry ∷ entries) p =
      let ran = run_case most entry p in
      elim (is_going ran.1.1) [
        | true ↦ let rest = run_cases most entries ran.1.0 in (ran.0 ∷ rest.0, rest.1)
        | false ↦ (ran.0 ∷ entries, ran.1)
      ]

  -- The part of `main` from the first `rebuild_ledgers` on.
  unfoldable pub run_campaign : Option ℤ → List CaseEntry → World → CampaignReport
  run_campaign most entries world =
      let rebuilt = rebuild_ledgers reading entries in
      elim rebuilt.1 [
        | err e ↦ left_alone (some rebuilt.0) (raises e)
        | ok ledgers ↦
            if ledgers.fatal
            then left_alone (some rebuilt.0) (ends (manifest_with ledgers 0 failed) 1)
            else let ran = run_cases most rebuilt.0 (record { world = world; new_attempts = 0 }) in
              finish_campaign reading ran.0 ran.1.0.new_attempts ran.1.1
      ]

  -- The rows of the schedules, the unit cases first, are those of the frozen protocol; an output
  -- that exists has an entry for each.
  unfoldable pub main :
      CampaignOptions → List CaseRow → Option (List CaseEntry) → World → CampaignReport
  main options rows output world =
      if bad_most options.max_new_attempts
      then left_alone output (raises bad_maximum)
      else let seen = outside.observe world in
        elim (check_environment reading.canonical_sha256 gate seen.1) [
          | err e ↦ left_alone output (raises e)
          | ok _ ↦
              if options.dry_run
              then left_alone output dry_run_passes
              else elim (open_output options.resume rows output) [
                | err e ↦ left_alone output (raises e)
                | ok entries ↦ run_campaign options.max_new_attempts entries seen.0
              ]
        ]
