-- ===== src/Recovery/Laws.antt =====
-- What the attempts of a recovery, and the cycles of a qualification, say.
use mathlib.Core.Option.{some-injective}
use qos_extended_mros2_esp.Base.{
  ℕ, zero, suc, ◌+◌, ◌≤◌, ◌≡◌, refl, subst, true, false, Option, none, some, List, [], ◌∷◌, length,
  All, arith, if◌then◌else◌, ◌==◌, Bool-cases, inl, inr, >>=-eq-some,
}
use qos_extended_mros2_esp.Base.Int.{ℤ, pos, ltb_ℤ, pos_part, int_eq}
use qos_extended_mros2_esp.Base.Result.{Result, ok, err}
use qos_extended_mros2_esp.Recovery.Reset.{
  Outside, Attempt, Recovery, RecoveryError, value_error, board_recovery_error, attempt_once,
  attempts_from, outcome, recover_board_network, board_reachable,
}

abbrev pub IsUnreachable : Attempt → Type 0
IsUnreachable a = a.board_reachable ≡ false

-- The attempts are numbered one after the other, from a number on.
abbrev pub AreNumbered : ℕ → List Attempt → Type 0
AreNumbered number [] = Unit
AreNumbered number (a ∷ attempts) = (a.attempt ≡ number) × AreNumbered (number + 1) attempts

-- Only the last attempt reached the board, and it has the number that is used.
abbrev pub EndsReachable : ℕ → List Attempt → Type 0
EndsReachable used [] = ⊥
EndsReachable used (a ∷ []) = (a.attempt ≡ used) × (a.board_reachable ≡ true)
EndsReachable used (a ∷ b ∷ attempts) = IsUnreachable a × EndsReachable used (b ∷ attempts)

-- What the loop over the attempts returns.
abbrev pub IsTried : ℕ → ℕ → Option ℕ → List Attempt → Type 0
IsTried number left none attempts =
    (length attempts ≡ left) × All IsUnreachable attempts × AreNumbered number attempts
IsTried number left (some used) attempts =
    (used + 1 ≡ number + length attempts)
    × (length attempts ≤ left)
    × EndsReachable used attempts
    × AreNumbered number attempts

EndsReachable-cons :
    (used : ℕ) (a : Attempt) (attempts : List Attempt)
    → IsUnreachable a
    → EndsReachable used attempts
    → EndsReachable used (a ∷ attempts)
EndsReachable-cons used a [] h e = absurd e
EndsReachable-cons used a (b ∷ attempts) h e = (h, e)

IsTried-cons :
    (number left : ℕ) (used : Option ℕ) (a : Attempt) (attempts : List Attempt)
    → IsUnreachable a
    → a.attempt ≡ number
    → IsTried (number + 1) left used attempts
    → IsTried number (suc left) used (a ∷ attempts)
IsTried-cons number left none a attempts h n (count, all, numbered) =
    (omega arith, (h, all), (n, numbered))
IsTried-cons number left (some used) a attempts h n (count, le, ends, numbered) =
    (omega arith, omega arith, EndsReachable-cons used a attempts h ends, (n, numbered))

-- A `ValueError` is for a number of attempts below 1.
abbrev pub IsOutcome : ℤ → Result RecoveryError Recovery → Type 0
IsOutcome max_attempts (err value_error) = ltb_ℤ max_attempts (pos 1) ≡ true
IsOutcome max_attempts (err (board_recovery_error attempts)) =
    (length attempts ≡ pos_part max_attempts) × All IsUnreachable attempts × AreNumbered 1 attempts
IsOutcome max_attempts (ok recovery) =
    (recovery.attempts_allowed ≡ max_attempts)
    × (recovery.attempts_used ≡ length recovery.attempts)
    × (length recovery.attempts ≤ pos_part max_attempts)
    × EndsReachable recovery.attempts_used recovery.attempts
    × AreNumbered 1 recovery.attempts

IsTried-IsOutcome :
    (O : Outside) (max_attempts : ℤ) (used : Option ℕ) (attempts : List Attempt)
    → IsTried 1 (pos_part max_attempts) used attempts
    → IsOutcome max_attempts (outcome O max_attempts used attempts)
unfolding outcome
IsTried-IsOutcome O max_attempts none attempts h = h
IsTried-IsOutcome O max_attempts (some used) attempts (count, le, ends, numbered) =
    (refl, omega arith, le, ends, numbered)

module _ (O : Outside) where
  attempt_once-number :
      (timeout number : ℕ) (w : O.World) (tried : O.World × Attempt)
      → attempt_once O timeout number w ≡ some tried
      → tried.1.attempt ≡ number
  unfolding attempt_once
  attempt_once-number timeout number w tried h =
      let returncode = (O.reset w).1 in
      let reached =
        if returncode == pos 0
        then board_reachable O timeout (O.reset w).0
        else some ((O.reset w).0, false) in
      let (waited, _, made) = >>=-eq-some reached _ h in
      subst (λ (x : O.World × Attempt). x.1.attempt ≡ number) (some-injective _ _ made) refl

  attempts_from-IsTried :
      (timeout number left : ℕ) (w w1 : O.World) (used : Option ℕ) (attempts : List Attempt)
      → attempts_from O timeout number left w ≡ some (w1, used, attempts)
      → IsTried number left used attempts
  unfolding attempts_from
  attempts_from-IsTried timeout number zero w w1 used attempts h =
      subst (λ (x : O.World × Option ℕ × List Attempt). IsTried number zero x.1 x.2)
        (some-injective _ _ h) (refl, tt, tt)
  attempts_from-IsTried timeout number (suc left) w w1 used attempts h =
      let (tried, once, h1) = >>=-eq-some (attempt_once O timeout number w) _ h in
      let numbered = attempt_once-number timeout number w tried once in
      elim (Bool-cases tried.1.board_reachable) [
        | inl back ↦
            subst (λ (x : O.World × Option ℕ × List Attempt). IsTried number (suc left) x.1 x.2)
              (some-injective _ _ (rw back at h1))
              (omega arith, omega arith, (numbered, back), (numbered, tt))
        | inr gone ↦
            let ((w2, used2, rest), again, h2) =
              >>=-eq-some (attempts_from O timeout (number + 1) left tried.0) _ (rw gone at h1) in
            subst (λ (x : O.World × Option ℕ × List Attempt). IsTried number (suc left) x.1 x.2)
              (some-injective _ _ h2)
              (IsTried-cons number left used2 tried.1 rest gone numbered
                (attempts_from-IsTried timeout (number + 1) left tried.0 w2 used2 rest again))
      ]

  pub recover_board_network-IsOutcome :
      (max_attempts : ℤ) (timeout : ℕ) (w w1 : O.World) (result : Result RecoveryError Recovery)
      → recover_board_network O max_attempts timeout w ≡ some (w1, result)
      → IsOutcome max_attempts result
  unfolding recover_board_network
  recover_board_network-IsOutcome max_attempts timeout w w1 result h =
      elim (Bool-cases (ltb_ℤ max_attempts (pos 1))) [
        | inl few ↦
            subst (λ (x : O.World × Result RecoveryError Recovery). IsOutcome max_attempts x.1)
              (some-injective _ _ (rw few at h)) few
        | inr more ↦
            let ((w2, used, attempts), tried, h1) =
              >>=-eq-some (attempts_from O timeout 1 (pos_part max_attempts) w) _ (rw more at h) in
            subst (λ (x : O.World × Result RecoveryError Recovery). IsOutcome max_attempts x.1)
              (some-injective _ _ h1)
              (IsTried-IsOutcome O max_attempts used attempts
                (attempts_from-IsTried timeout 1 (pos_part max_attempts) w w2 used attempts tried))
      ]
