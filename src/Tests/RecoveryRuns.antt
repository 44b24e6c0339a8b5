-- ===== src/Tests/RecoveryRuns.antt =====
-- Resets of a board, as p4_reset_recovery.py makes them.
use native.Mathlib.Decide.{ℕ_discrete}
use qos_extended_mros2_esp.Base.{
  ℕ, ◌+◌, ◌≡◌, ◌≢◌, refl, true, false, Option, none, some, [], ◌∷◌, leb, arith,
}
use qos_extended_mros2_esp.Base.Int.{ℤ, pos, int_eq}
use qos_extended_mros2_esp.Base.Result.{Result, ok}
use qos_extended_mros2_esp.Recovery.{
  esptool_reset_command, Outside, Recovery, RecoveryError, Report, nanos, reachable_by,
  board_reachable, attempt_once, attempts_from, outcome, recover_board_network, with_cycle,
  after_recovery, cycles_from, report_of, reported, qualify_reset_recovery,
}
use qos_extended_mros2_esp.Recovery.Clock.{IsClock, qualify_reset_recovery_ends}
use qos_extended_mros2_esp.Recovery.Qualified.{IsReport, qualify_reset_recovery-IsReport}

-- The world is its time. The board answers once four seconds have gone by; a reset takes a second.
abbrev four_seconds : Outside
four_seconds = record {
  World = ℕ;
  now = λ w. w;
  sleep = λ seconds w. w + nanos seconds;
  ping = λ w. (w, leb (nanos 4) w);
  reset = λ w. (w + nanos 1, pos 0, "Hard resetting");
}

four_seconds-IsClock : IsClock four_seconds
four_seconds-IsClock = record { ping_on = λ w. omega arith; sleep_on = λ seconds w. omega arith }

abbrev recovered : Recovery
recovered = record {
  attempts_allowed = pos 3;
  attempts_used = 2;
  attempts =
      record { attempt = 1; returncode = pos 0; board_reachable = false; stdout = "Hard resetting" }
      ∷ record {
        attempt = 2;
        returncode = pos 0;
        board_reachable = true;
        stdout = "Hard resetting";
      }
      ∷ [];
}

abbrev recovered_at_once : Recovery
recovered_at_once = record {
  attempts_allowed = pos 3;
  attempts_used = 1;
  attempts =
      record { attempt = 1; returncode = pos 0; board_reachable = true; stdout = "Hard resetting" }
      ∷ [];
}

abbrev passed : Report
passed = record {
  passes = true;
  cycles_required = pos 2;
  cycles_pass = 2;
  cycles = (1, recovered) ∷ (2, recovered_at_once) ∷ [];
  failure = none;
}

qualified : ℤ → ℤ → Option (ℕ × Result RecoveryError Report)
unfolding qualify_reset_recovery reported report_of cycles_from after_recovery with_cycle
    recover_board_network outcome attempts_from attempt_once board_reachable reachable_by int_eq
    ℕ_discrete
qualified cycles max_attempts = qualify_reset_recovery four_seconds cycles max_attempts 1 (pos 1) 0

qualifies :
    qualify_reset_recovery four_seconds (pos 2) (pos 3) 1 (pos 1) 0 ≡ some (nanos 6, ok passed)
unfolding qualified
qualifies = refl

qualify_reset_recovery-IsReport_example : IsReport (pos 2) (pos 3) (ok passed)
qualify_reset_recovery-IsReport_example =
    qualify_reset_recovery-IsReport four_seconds (pos 2) (pos 3) 1 (pos 1) 0 (nanos 6) passed
      qualifies

-- One attempt a cycle is too few for the first cycle.
qualifies_not :
    qualified (pos 2) (pos 1)
    ≡ some (
      nanos 2,
      ok (record {
        passes = false;
        cycles_required = pos 2;
        cycles_pass = 0;
        cycles = [];
        failure = some (record {
          cycle = 1;
          attempts =
              record {
                attempt = 1;
                returncode = pos 0;
                board_reachable = false;
                stdout = "Hard resetting";
              }
              ∷ [];
        });
      }),
    )
unfolding qualified
qualifies_not = refl

qualify_reset_recovery_ends_example :
    qualify_reset_recovery four_seconds (pos 2) (pos 3) 1 (pos 1) 0 ≢ none
qualify_reset_recovery_ends_example =
    qualify_reset_recovery_ends four_seconds four_seconds-IsClock (pos 2) (pos 3) 1 (pos 1) 0

-- An empty argument counts as none, and the environment has the path.
command_from_environment :
    esptool_reset_command "/dev/ttyUSB0" (some "") (some "/idf") none "python3"
    ≡ some (
        "python3" ∷ "/idf/components/esptool_py/esptool/esptool.py" ∷ "--chip" ∷ "esp32s3" ∷ "-p"
        ∷ "/dev/ttyUSB0" ∷ "--before" ∷ "default_reset" ∷ "--after" ∷ "hard_reset" ∷ "chip_id" ∷ [])
unfolding esptool_reset_command
command_from_environment = refl

no_idf_path : esptool_reset_command "/dev/ttyUSB0" none (some "") none "python3" ≡ none
unfolding esptool_reset_command
no_idf_path = refl
