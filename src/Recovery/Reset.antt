-- ===== src/Recovery/Reset.antt =====
-- `board_reachable`, `recover_board_network` and `qualify_reset_recovery`. The board, the network
-- and the clock are outside: what the scripts do with them is a function of a world that goes on.
-- `none` stands for a wait that runs out of fuel. The reset command is one that there is. Time stamps, paths and digests are left out.
use qos_extended_mros2_esp.Base.{
  ℕ, zero, suc, ◌+◌, ◌*◌, String, Bool, true, false, ◌||◌, Option, none, some, List, [], ◌∷◌,
  length, leb, eqb, ◌>>=◌, if◌then◌else◌, ◌==◌,
}
use qos_extended_mros2_esp.Base.Int.{ℤ, pos, ltb_ℤ, pos_part, int_eq}
use qos_extended_mros2_esp.Base.Result.{Result, ok, err}

-- A clock in nanoseconds, `time.sleep`, one `ping`, and one run of the reset command with its
-- return code and its output.
pub record Outside : Type 1 where
  pub World : Type 0
  pub now : World → ℕ
  pub sleep : ℕ → World → World
  pub ping : World → World × Bool
  pub reset : World → World × ℤ × String

pub record Attempt : Type 0 where
  pub attempt : ℕ
  pub returncode : ℤ
  pub board_reachable : Bool
  pub stdout : String

pub record Recovery : Type 0 where
  pub attempts_allowed : ℤ
  pub attempts_used : ℕ
  pub attempts : List Attempt

-- `ValueError`, and `BoardRecoveryError` with its attempts.
pub data RecoveryError : Type 0 where
  value_error : RecoveryError
  board_recovery_error : List Attempt → RecoveryError

pub record Failure : Type 0 where
  pub cycle : ℕ
  pub attempts : List Attempt

pub record Report : Type 0 where
  pub passes : Bool
  pub cycles_required : ℤ
  pub cycles_pass : ℕ
  pub cycles : List (ℕ × Recovery)
  pub failure : Option Failure

abbrev pub nanos : ℕ → ℕ
nanos seconds = seconds * 1_000_000_000

module _ (O : Outside) where
  -- The loop of `board_reachable`.
  unfoldable pub reachable_by : ℕ → ℕ → O.World → Option (O.World × Bool)
  reachable_by zero deadline w = none
  reachable_by (suc fuel) deadline w =
      let (answer, returned) = O.ping w in
      let rest = reachable_by fuel deadline (O.sleep 1 answer) in
      if returned
      then some (answer, true)
      else if leb deadline (O.now answer)
      then some (answer, false)
      else rest

  unfoldable pub board_reachable : ℕ → O.World → Option (O.World × Bool)
  board_reachable timeout w = reachable_by (suc timeout) (O.now w + nanos timeout) w

  -- The body of the loop in `recover_board_network`.
  unfoldable pub attempt_once : ℕ → ℕ → O.World → Option (O.World × Attempt)
  attempt_once timeout number w =
      let (w1, returncode, stdout) = O.reset w in
      (if returncode == pos 0 then board_reachable timeout w1 else some (w1, false)) >>= λ waited.
      some (
        waited.0,
        record {
          attempt = number;
          returncode = returncode;
          board_reachable = waited.1;
          stdout = stdout;
        },
      )

  -- The loop, from a number on, with the attempts left: the number that was used, if one was, and
  -- the attempts.
  unfoldable pub attempts_from : ℕ → ℕ → ℕ → O.World → Option (O.World × Option ℕ × List Attempt)
  attempts_from timeout number zero w = some (w, none, [])
  attempts_from timeout number (suc left) w = attempt_once timeout number w >>= λ tried.
      elim tried.1.board_reachable [
        | true ↦ some (tried.0, some number, tried.1 ∷ [])
        | false ↦ attempts_from timeout (number + 1) left tried.0 >>= λ (w2, used, attempts).
            some (w2, used, tried.1 ∷ attempts)
      ]

  -- What `recover_board_network` makes of its loop.
  unfoldable pub outcome : ℤ → Option ℕ → List Attempt → Result RecoveryError Recovery
  outcome max_attempts none attempts = err (board_recovery_error attempts)
  outcome max_attempts (some number) attempts =
      ok (record { attempts_allowed = max_attempts; attempts_used = number; attempts = attempts })

  unfoldable pub recover_board_network :
      ℤ → ℕ → O.World → Option (O.World × Result RecoveryError Recovery)
  recover_board_network max_attempts timeout w =
      let tried = attempts_from timeout 1 (pos_part max_attempts) w in
      if ltb_ℤ max_attempts (pos 1)
      then some (w, err value_error)
      else (tried >>= λ (w1, used, attempts). some (w1, outcome max_attempts used attempts))

  -- The cycles that recovered, and the failure that ended the loop; or a `ValueError`.
  abbrev pub Cycles : Type 0
  Cycles = Result RecoveryError (List (ℕ × Recovery) × Option Failure)

  unfoldable pub with_cycle : ℕ → Recovery → Cycles → Cycles
  with_cycle cycle recovery (err error) = err error
  with_cycle cycle recovery (ok (records, failure)) = ok ((cycle, recovery) ∷ records, failure)

  -- The body of the loop of `qualify_reset_recovery`, with the rest of the loop.
  unfoldable pub after_recovery :
      ℕ
      → (O.World → Option (O.World × Cycles))
      → O.World
      → Result RecoveryError Recovery
      → Option (O.World × Cycles)
  after_recovery cycle later w (err value_error) = some (w, err value_error)
  after_recovery cycle later w (err (board_recovery_error attempts)) =
      some (w, ok ([], some (record { cycle = cycle; attempts = attempts })))
  after_recovery cycle later w (ok recovery) =
      later w >>= λ found. some (found.0, with_cycle cycle recovery found.1)

  -- The loop, from a cycle on, with the cycles left. There is no sleep behind the last one.
  unfoldable pub cycles_from : ℤ → ℕ → ℕ → ℕ → ℕ → O.World → Option (O.World × Cycles)
  cycles_from max_attempts timeout settle cycle zero w = some (w, ok ([], none))
  cycles_from max_attempts timeout settle cycle (suc left) w =
      recover_board_network max_attempts timeout w >>= λ recovered.
      after_recovery cycle
        (λ w1.
          cycles_from max_attempts timeout settle (cycle + 1) left
            (if eqb left 0 then w1 else O.sleep settle w1))
        recovered.0 recovered.1

  unfoldable pub report_of : ℤ → List (ℕ × Recovery) × Option Failure → Report
  report_of cycles (records, failure) = record {
    passes = pos (length records) == cycles;
    cycles_required = cycles;
    cycles_pass = length records;
    cycles = records;
    failure = failure;
  }

  unfoldable pub reported : ℤ → Cycles → Result RecoveryError Report
  reported cycles (err error) = err error
  reported cycles (ok found) = ok (report_of cycles found)

  unfoldable pub qualify_reset_recovery :
      ℤ → ℤ → ℕ → ℤ → O.World → Option (O.World × Result RecoveryError Report)
  qualify_reset_recovery cycles max_attempts timeout settle w =
      let found = cycles_from max_attempts timeout (pos_part settle) 1 (pos_part cycles) w in
      if ltb_ℤ cycles (pos 1) || ltb_ℤ settle (pos 0)
      then some (w, err value_error)
      else (found >>= λ x. some (x.0, reported cycles x.1))
