-- ===== src/Recovery/Qualified.antt =====
-- What the report of a qualification says of its cycles.
use mathlib.Core.Option.{some-injective}
use qos_extended_mros2_esp.Base.{
  ℕ, zero, suc, ◌+◌, ◌<◌, ◌≡◌, refl, sym, ap, subst, Bool, true, false, ◌||◌, Option, none, some,
  List, [], ◌∷◌, length, ◌==◌, arith, Bool-cases, inl, inr, >>=-eq-some,
}
use qos_extended_mros2_esp.Base.Int.{ℤ, pos, ltb_ℤ, pos_part, int_eq}
use qos_extended_mros2_esp.Base.Result.{Result, ok, err}
use qos_extended_mros2_esp.Recovery.Reset.{
  Outside, Recovery, RecoveryError, value_error, board_recovery_error, Failure, Report,
  recover_board_network, Cycles, with_cycle, after_recovery, cycles_from, report_of, reported,
  qualify_reset_recovery,
}
use qos_extended_mros2_esp.Recovery.Laws.{IsOutcome, recover_board_network-IsOutcome}

-- What the cycles from a number on say, with the cycles left: they are numbered in order, and a
-- failure is that of the cycle behind the last that recovered.
abbrev pub IsCycles : ℤ → ℕ → ℕ → List (ℕ × Recovery) → Option Failure → Type 0
IsCycles max_attempts cycle left [] none = left ≡ 0
IsCycles max_attempts cycle left [] (some failure) =
    (0 < left)
    × (failure.cycle ≡ cycle)
    × IsOutcome max_attempts (err (board_recovery_error failure.attempts))
IsCycles max_attempts cycle zero (entry ∷ records) failure = ⊥
IsCycles max_attempts cycle (suc left) (entry ∷ records) failure =
    (entry.0 ≡ cycle)
    × IsOutcome max_attempts (ok entry.1)
    × IsCycles max_attempts (cycle + 1) left records failure

-- An error carries no cycles.
abbrev IsFound : (O : Outside) → ℤ → ℕ → ℕ → Cycles O → Type 0
IsFound O max_attempts cycle left (err error) = Unit
IsFound O max_attempts cycle left (ok (records, failure)) =
    IsCycles max_attempts cycle left records failure

module _ (O : Outside) (max_attempts : ℤ) where
  with_cycle-IsFound :
      (cycle left : ℕ) (recovery : Recovery) (found : Cycles O)
      → IsOutcome max_attempts (ok recovery)
      → IsFound O max_attempts (cycle + 1) left found
      → IsFound O max_attempts cycle (suc left) (with_cycle O cycle recovery found)
  unfolding with_cycle
  with_cycle-IsFound cycle left recovery (err error) said h = tt
  with_cycle-IsFound cycle left recovery (ok (records, failure)) said h = (refl, said, h)

  after_recovery-IsFound :
      (cycle left : ℕ) (later : O.World → Option (O.World × Cycles O)) (w : O.World)
      (result : Result RecoveryError Recovery) (found : O.World × Cycles O)
      → IsOutcome max_attempts result
      → ((w1 : O.World) (rest : O.World × Cycles O)
          → later w1 ≡ some rest
          → IsFound O max_attempts (cycle + 1) left rest.1)
      → after_recovery O cycle later w result ≡ some found
      → IsFound O max_attempts cycle (suc left) found.1
  unfolding after_recovery
  after_recovery-IsFound cycle left later w (err value_error) found said rest h =
      subst (λ (x : O.World × Cycles O). IsFound O max_attempts cycle (suc left) x.1)
        (some-injective _ _ h) tt
  after_recovery-IsFound cycle left later w (err (board_recovery_error attempts)) found said rest
        h =
      subst (λ (x : O.World × Cycles O). IsFound O max_attempts cycle (suc left) x.1)
        (some-injective _ _ h) (omega arith, refl, said)
  after_recovery-IsFound cycle left later w (ok recovery) found said rest h =
      let (more, h1, h2) = >>=-eq-some (later w) _ h in
      subst (λ (x : O.World × Cycles O). IsFound O max_attempts cycle (suc left) x.1)
        (some-injective _ _ h2)
        (with_cycle-IsFound cycle left recovery more.1 said (rest w more h1))

  cycles_from-IsFound :
      (timeout settle cycle left : ℕ) (w : O.World) (found : O.World × Cycles O)
      → cycles_from O max_attempts timeout settle cycle left w ≡ some found
      → IsFound O max_attempts cycle left found.1
  unfolding cycles_from
  cycles_from-IsFound timeout settle cycle zero w found h =
      subst (λ (x : O.World × Cycles O). IsFound O max_attempts cycle zero x.1)
        (some-injective _ _ h) refl
  cycles_from-IsFound timeout settle cycle (suc left) w found h =
      let (recovered, h1, h2) = >>=-eq-some (recover_board_network O max_attempts timeout w) _ h in
      after_recovery-IsFound cycle left _ recovered.0 recovered.1 found
        (recover_board_network-IsOutcome O max_attempts timeout w recovered.0 recovered.1 h1)
        (λ w1 rest. cycles_from-IsFound timeout settle (cycle + 1) left _ rest) h2

-- Without a failure every cycle recovered, with one not every cycle did.
abbrev IsAll : ℕ → ℕ → Option Failure → Type 0
IsAll count left none = count ≡ left
IsAll count left (some failure) = count < left

IsCycles-IsAll :
    (max_attempts : ℤ) (cycle left : ℕ) (records : List (ℕ × Recovery)) (failure : Option Failure)
    → IsCycles max_attempts cycle left records failure
    → IsAll (length records) left failure
IsCycles-IsAll max_attempts cycle left [] none h = sym h
IsCycles-IsAll max_attempts cycle left [] (some failure) h = h.0
IsCycles-IsAll max_attempts cycle zero (entry ∷ records) failure h = absurd h
IsCycles-IsAll max_attempts cycle (suc left) (entry ∷ records) none h =
    ap suc (IsCycles-IsAll max_attempts (cycle + 1) left records none h.2)
IsCycles-IsAll max_attempts cycle (suc left) (entry ∷ records) (some failure) h =
    omega (arith, IsCycles-IsAll max_attempts (cycle + 1) left records (some failure) h.2)

-- A report passes exactly without a failure.
abbrev pub IsStatus : Bool → Option Failure → Type 0
IsStatus passes none = passes ≡ true
IsStatus passes (some failure) = passes ≡ false

IsAll-IsStatus :
    (count : ℕ) (cycles : ℤ) (failure : Option Failure)
    → ltb_ℤ cycles (pos 1) ≡ false
    → IsAll count (pos_part cycles) failure
    → IsStatus (pos count == cycles) failure
IsAll-IsStatus count cycles none more all = ground arith
IsAll-IsStatus count cycles (some failure) more all = ground arith

abbrev pub IsReport : ℤ → ℤ → Result RecoveryError Report → Type 0
IsReport cycles max_attempts (err error) = Unit
IsReport cycles max_attempts (ok report) =
    (report.cycles_required ≡ cycles)
    × (report.cycles_pass ≡ length report.cycles)
    × IsStatus report.passes report.failure
    × IsCycles max_attempts 1 (pos_part cycles) report.cycles report.failure

module _ (O : Outside) (cycles max_attempts : ℤ) where
  reported-IsReport :
      (found : Cycles O)
      → ltb_ℤ cycles (pos 1) ≡ false
      → IsFound O max_attempts 1 (pos_part cycles) found
      → IsReport cycles max_attempts (reported O cycles found)
  unfolding reported report_of
  reported-IsReport (err error) more h = tt
  reported-IsReport (ok (records, failure)) more h = (
    refl,
    refl,
    IsAll-IsStatus (length records) cycles failure more
        (IsCycles-IsAll max_attempts 1 (pos_part cycles) records failure h),
    h,
  )

  -- A report of `qualify_reset_recovery` holds the cycles in order from 1, each with a recovery
  -- that used as many attempts as it lists, at most those allowed, the last of which alone reached
  -- the board. It passes exactly when it has no failure: then all the cycles asked for recovered.
  -- A failure is that of the cycle behind the last that recovered, with as many attempts as are
  -- allowed, none of which reached the board.
  pub qualify_reset_recovery-IsReport :
      (timeout : ℕ) (settle : ℤ) (w w1 : O.World) (report : Report)
      → qualify_reset_recovery O cycles max_attempts timeout settle w ≡ some (w1, ok report)
      → IsReport cycles max_attempts (ok report)
  unfolding qualify_reset_recovery
  qualify_reset_recovery-IsReport timeout settle w w1 report h =
      elim (Bool-cases (ltb_ℤ cycles (pos 1) || ltb_ℤ settle (pos 0))) [
        | inl wrong ↦
            subst (λ (x : O.World × Result RecoveryError Report). IsReport cycles max_attempts x.1)
              (some-injective _ _ (rw wrong at h)) tt
        | inr right ↦
            let (found, h1, h2) =
              >>=-eq-some
                (cycles_from O max_attempts timeout (pos_part settle) 1 (pos_part cycles) w) _
                (rw right at h) in
            subst (λ (x : O.World × Result RecoveryError Report). IsReport cycles max_attempts x.1)
              (some-injective _ _ h2)
              (reported-IsReport found.1 (ground (arith, right)) (
                cycles_from-IsFound O max_attempts timeout (pos_part settle) 1 (pos_part cycles) w
                  found h1))
      ]
