-- ===== src/Campaign/Endings.antt =====
-- How a campaign goes on and ends: its options, the endings of its loops, and the last lines of
-- `main`.
use qos_extended_mros2_esp.Base.{
  ℕ, String, Bool, true, false, not, ◌&&◌, List, [], Option, none, some, map, eqb, if◌then◌else◌,
  string_eq,
}
use qos_extended_mros2_esp.Base.Int.{ℤ, pos, leb_ℤ}
use qos_extended_mros2_esp.Base.Result.{Result, ok, err, ◌>>◌, raise_if}
use qos_extended_mros2_esp.Campaign.Environment.{CampaignError, Machine, output_exists}
use qos_extended_mros2_esp.Campaign.Store.{CaseRow, Files, CaseEntry}
use qos_extended_mros2_esp.Campaign.Rebuild.{Ledgers, accepted_unit, accepted_hardware}

-- What lies outside: looking at the machine, and a runner's work on an attempt, which leaves the
-- attempt's files and prints a text.
pub record Surroundings (World : Type 0) : Type 0 where
  pub observe : World → World × Machine
  pub run : CaseRow → ℕ → World → World × (Files × String)
  pub row_text : CaseRow → String

pub record CampaignOptions : Type 0 where
  pub max_new_attempts : Option ℤ
  pub dry_run : Bool
  pub resume : Bool

-- How the work on a case ends: the campaign goes on with the next case, it stops at the maximum
-- of new attempts, an attempt is fatal, no attempt is left, or an exception is raised.
pub data Ending : Type 0 where
  going stopped fatal_seen exhausted : Ending
  raised : CampaignError → Ending

abbrev pub is_going : Ending → Bool
is_going going = true
is_going ending = false

pub record Progress (World : Type 0) : Type 0 where
  pub world : World
  pub new_attempts : ℕ

pub data Status : Type 0 where
  complete in_progress failed : Status

pub record CampaignManifest : Type 0 where
  pub accepted_unit : ℕ
  pub accepted_hardware : ℕ
  pub new_attempts : ℕ
  pub fatal : Bool
  pub status : Status

-- How `main` ends: it raises, it is a dry run, or it writes the manifest and returns or exits with
-- a code. `SystemExit` with a text has the code 1.
pub data Outcome : Type 0 where
  raises : CampaignError → Outcome
  dry_run_passes : Outcome
  ends : CampaignManifest → ℕ → Outcome

-- What the output holds in the end, if it exists, the new attempts, and how `main` ends.
pub record CampaignReport : Type 0 where
  pub entries : Option (List CaseEntry)
  pub new_attempts : ℕ
  pub outcome : Outcome

abbrev pub max_attempts : ℕ
max_attempts = 3

abbrev pub new_entry : CaseRow → CaseEntry
new_entry row = record { row = row; attempts = []; receipt = none }

-- `max_new_attempts is not None and new_attempts >= max_new_attempts`
unfoldable pub is_spent : Option ℤ → ℕ → Bool
is_spent none made = false
is_spent (some most) made = leb_ℤ most (pos made)

abbrev pub manifest_with : Ledgers → ℕ → Status → CampaignManifest
manifest_with ledgers made status = record {
  accepted_unit = accepted_unit ledgers;
  accepted_hardware = accepted_hardware ledgers;
  new_attempts = made;
  fatal = ledgers.fatal;
  status = status;
}

abbrev pub is_complete : Ledgers → Bool
is_complete ledgers =
    eqb (accepted_unit ledgers) 27 && eqb (accepted_hardware ledgers) 32 && not ledgers.fatal

-- The last lines of `main`.
unfoldable pub conclude : Ledgers → ℕ → Bool → Outcome
conclude ledgers made is_stopped =
    if is_complete ledgers
    then ends (manifest_with ledgers made complete) 0
    else ends (manifest_with ledgers made in_progress) (if is_stopped then 0 else 1)

unfoldable pub outcome_of : Ending → Ledgers → ℕ → Outcome
outcome_of going ledgers made = conclude ledgers made false
outcome_of stopped ledgers made = conclude ledgers made true
outcome_of fatal_seen ledgers made = ends (manifest_with ledgers made failed) 1
outcome_of exhausted ledgers made = ends (manifest_with ledgers made failed) 1
outcome_of (raised e) ledgers made = raises e

unfoldable pub outcome_after : Result CampaignError Ledgers → Ending → ℕ → Outcome
outcome_after (err e) ending made = raises e
outcome_after (ok ledgers) ending made = outcome_of ending ledgers made

abbrev pub left_alone : Option (List CaseEntry) → Outcome → CampaignReport
left_alone output outcome = record { entries = output; new_attempts = 0; outcome = outcome }

unfoldable pub open_output :
    Bool → List CaseRow → Option (List CaseEntry) → Result CampaignError (List CaseEntry)
open_output resume rows none = ok (map new_entry rows)
open_output resume rows (some entries) = raise_if (not resume) output_exists >> ok entries

abbrev pub bad_most : Option ℤ → Bool
bad_most none = false
bad_most (some most) = not (leb_ℤ (pos 1) most)
