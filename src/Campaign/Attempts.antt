-- ===== src/Campaign/Attempts.antt =====
-- The attempts of a case, where the outside lets one of three pass.
use qos_extended_mros2_esp.Base.{
  ℕ, zero, suc, ◌+◌, ◌-◌, ◌≤◌, ◌≡◌, refl, sym, ap, ◌∙◌, subst, Bool, true, false, [], ◌∷◌, ◌++◌,
  Option, none, some, length, length-append, string_eq, arith, Bool-cases, Option-cases, inl, inr,
}
use qos_extended_mros2_esp.Base.Result.{ok}
use qos_extended_mros2_esp.Campaign.{
  Gate, check_environment, Kind, unit, hardware, CaseRow, Files, Reading, CaseEntry, is_passing,
  only_passing, accepted_attempt, fatal_attempt, any_fatal, Surroundings, Progress, Ending, going,
  is_spent, judge_attempt, settle, finished, prepare, run_attempt, start_attempt, run_attempts,
  run_case,
}
use qos_extended_mros2_esp.Campaign.Settled.{
  IsOpen, IsSettled, IsReady, any_fatal-append, record_receipt_new, passing_from-append,
  received-IsAccepted,
}

-- The machine stays as the gate says, no attempt leaves a fatal marker, and the third attempt of a
-- case passes, if not an earlier one.
pub record IsHelpful {World : Type 0} (outside : Surroundings World) (reading : Reading)
    (gate : Gate) : Type 0 where
  pub fits :
      (world : World)
      → check_environment reading.canonical_sha256 gate (outside.observe world).1 ≡ ok tt
  pub harmless :
      (row : CaseRow) (n : ℕ) (world : World)
      → fatal_attempt (finished outside reading gate row (outside.run row n world).1) ≡ false
  pub third_passes :
      (row : CaseRow) (world : World)
      → is_passing reading row.kind (finished outside reading gate row (outside.run row 2 world).1)
        ≡ true

-- What a round leads to: the case is settled, or it is open with one attempt more.
abbrev IsRound : Reading → CaseEntry → CaseEntry × Option Ending → Type 0
IsRound reading entry (after, none) =
    (after.row ≡ entry.row)
    × IsOpen reading after
    × (length after.attempts ≡ length entry.attempts + 1)
IsRound reading entry (after, some ending) =
    (ending ≡ going) × (after.row ≡ entry.row) × IsSettled reading after

one_left :
    (n : ℕ) {m : ℕ} {passes : Bool}
    → m ≡ n + 1
    → n ≤ 2
    → (n ≡ 2 → passes ≡ true)
    → passes ≡ false
    → m ≤ 2
one_left zero h few third fails = omega arith
one_left (suc zero) h few third fails = omega arith
one_left (suc (suc zero)) h few third fails = absurd (ground (arith, third refl))
one_left (suc (suc (suc n))) h few third fails = absurd (omega arith)

module _ {World : Type 0} (outside : Surroundings World) (reading : Reading) (gate : Gate)
    (helpful : IsHelpful outside reading gate) where
  prepare_fits : (kind : Kind) (world : World) → (prepare outside reading gate kind world).1 ≡ ok tt
  unfolding prepare
  prepare_fits unit world = refl
  prepare_fits hardware world = helpful.fits world

  judge_attempt-IsRound :
      (entry : CaseEntry) (files : Files)
      → IsOpen reading entry
      → fatal_attempt files ≡ false
      → (length entry.attempts ≡ 2 → is_passing reading entry.row.kind files ≡ true)
      → IsRound reading entry (
          judge_attempt reading
            (record entry { attempts = entry.attempts ++ files ∷ [] })
            (length entry.attempts)
            files)
  unfolding judge_attempt any_fatal
  judge_attempt-IsRound entry files (missing, few, unreceived, fine) harmless third =
      let added : CaseEntry = record entry { attempts = entry.attempts ++ files ∷ [] } in
      let calm : any_fatal (entry.attempts ++ files ∷ []) ≡ false =
        any_fatal-append entry.attempts (files ∷ []) ∙ ground (arith, fine, harmless) in
      elim (Bool-cases (is_passing reading entry.row.kind files)) [
        | inl passes ↦
            rw
              (
                passes,
                record_receipt_new reading added (length entry.attempts) files unreceived passes,
                judge_attempt,
              )
              (
                refl,
                refl,
                (
                  received-IsAccepted reading entry files (missing, few, unreceived, fine) passes,
                  calm,
                ),
              )
        | inr fails ↦
            rw (fails, harmless, judge_attempt)
              (
                refl,
                (
                  passing_from-append reading entry.row.kind 0 entry.attempts files missing
                      ∙ ground (arith, fails),
                  one_left (length entry.attempts) (length-append entry.attempts (files ∷ [])) few
                      third fails,
                  unreceived,
                  calm,
                ),
                length-append entry.attempts (files ∷ []),
              )
      ]

  start_attempt-IsRound :
      (entry : CaseEntry) (p : Progress World)
      → IsOpen reading entry
      → let round = start_attempt outside reading gate none entry p in
        IsRound reading entry (round.0, round.1.1)
  unfolding start_attempt is_spent run_attempt
  start_attempt-IsRound entry p ready =
      let n = length entry.attempts in
      let world = (prepare outside reading gate entry.row.kind p.world).0 in
      let files = finished outside reading gate entry.row (outside.run entry.row n world).1 in
      rw (prepare_fits entry.row.kind p.world, start_attempt)
        (judge_attempt-IsRound entry files ready (helpful.harmless entry.row n world) (λ third.
          subst
            (λ k.
              is_passing reading entry.row.kind
                (finished outside reading gate entry.row (outside.run entry.row k world).1)
              ≡ true)
            (sym third) (helpful.third_passes entry.row world)))

  run_attempts-IsSettled :
      (left : ℕ) (entry : CaseEntry) (p : Progress World)
      → IsOpen reading entry
      → length entry.attempts + left ≡ 3
      → let ran = run_attempts outside reading gate none left entry p in
        (ran.1.1 ≡ going) × (ran.0.row ≡ entry.row) × IsSettled reading ran.0
  unfolding run_attempts
  run_attempts-IsSettled zero entry p (missing, few, unreceived, fine) count =
      absurd (omega (arith, few, count))
  run_attempts-IsSettled (suc left) entry p ready count =
      let round = start_attempt outside reading gate none entry p in
      let step = start_attempt-IsRound entry p ready in
      elim (Option-cases round.1.1) [
        | inr (ending, ended) ↦
            let (goes, row, settled) = subst (λ o. IsRound reading entry (round.0, o)) ended step in
            rw (ended, run_attempts) (goes, row, settled)
        | inl again ↦
            let (row, open_again, more) =
              subst (λ o. IsRound reading entry (round.0, o)) again step in
            let (goes, row2, settled) =
              run_attempts-IsSettled left round.0 round.1.0 open_again
                (omega (arith, more, count)) in
            rw (again, run_attempts) (goes, row2 ∙ row, settled)
      ]

  settle-IsSettled :
      (entry : CaseEntry) → IsSettled reading entry → settle reading entry going ≡ going
  unfolding settle accepted_attempt only_passing
  settle-IsSettled entry ((n, files, one, receipt), fine) = rw (one, settle) refl

  -- A case that is ready ends accepted, and the campaign goes on.
  pub run_case-IsSettled :
      (entry : CaseEntry) (p : Progress World)
      → IsReady reading entry
      → let ran = run_case outside reading gate none entry p in
        (ran.1.1 ≡ going) × (ran.0.row ≡ entry.row) × IsSettled reading ran.0
  unfolding run_case accepted_attempt only_passing
  run_case-IsSettled entry p (inr ((n, files, one, receipt), fine)) =
      rw (one, run_case) (refl, refl, ((n, files, one, receipt), fine))
  run_case-IsSettled entry p (inl (missing, few, unreceived, fine)) =
      let ran = run_attempts outside reading gate none (3 - length entry.attempts) entry p in
      let (goes, row, settled) =
        run_attempts-IsSettled (3 - length entry.attempts) entry p (missing, few, unreceived, fine)
          (omega (arith, few)) in
      rw (missing, run_case)
        (ap (settle reading ran.0) goes ∙ settle-IsSettled ran.0 settled, row, settled)
