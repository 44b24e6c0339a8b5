-- ===== src/Recovery/Clock.antt =====
-- Every wait ends: with a clock that goes on, the fuel is enough.
use qos_extended_mros2_esp.Base.{
  ℕ, zero, suc, ◌+◌, ◌≤◌, ◌≢◌, refl, ◌||◌, Option, none, some, ◌>>=◌, ◌==◌, arith, Bool-cases, inl,
  inr,
}
use qos_extended_mros2_esp.Base.Int.{ℤ, pos, ltb_ℤ, pos_part, int_eq}
use qos_extended_mros2_esp.Base.Result.{Result, ok, err}
use qos_extended_mros2_esp.Recovery.Reset.{
  Outside, Recovery, RecoveryError, value_error, board_recovery_error, nanos, reachable_by,
  board_reachable, attempt_once, attempts_from, recover_board_network, cycles_from, Cycles,
  after_recovery, qualify_reset_recovery,
}

-- `ping` does not set the clock back, and a sleep lasts at least as long as it says.
pub record IsClock (O : Outside) : Type 0 where
  pub ping_on : (w : O.World) → O.now w ≤ O.now (O.ping w).0
  pub sleep_on : (seconds : ℕ) (w : O.World) → O.now w + nanos seconds ≤ O.now (O.sleep seconds w)

bind_total {ℓ κ} :
    {A : Type ℓ} {B : Type κ} (m : Option A) (f : A → Option B)
    → m ≢ none
    → ((a : A) → f a ≢ none)
    → (m >>= f) ≢ none
bind_total none f there each = absurd (there refl)
bind_total (some a) f there each = each a

some-ne {ℓ} : {A : Type ℓ} (a : A) → some a ≢ none
some-ne a h = absurd (ground (arith, h))

module _ (O : Outside) (clock : IsClock O) where
  reachable_by_ends :
      (k deadline : ℕ) (w : O.World)
      → deadline ≤ O.now w + nanos k
      → reachable_by O (suc k) deadline w ≢ none
  unfolding reachable_by
  reachable_by_ends zero deadline w due = ground (arith, clock.ping_on w)
  reachable_by_ends (suc k) deadline w due = ground (
    arith,
    clock.ping_on w,
    clock.sleep_on 1 (O.ping w).0,
    reachable_by_ends k deadline (O.sleep 1 (O.ping w).0),
  )

  board_reachable_ends : (timeout : ℕ) (w : O.World) → board_reachable O timeout w ≢ none
  unfolding board_reachable
  board_reachable_ends timeout w =
      reachable_by_ends timeout (O.now w + nanos timeout) w (omega arith)

  attempt_once_ends : (timeout number : ℕ) (w : O.World) → attempt_once O timeout number w ≢ none
  unfolding attempt_once
  attempt_once_ends timeout number w =
      bind_total _ _
        (elim (Bool-cases ((O.reset w).1 == pos 0)) [
          | inl works ↦ rw works (board_reachable_ends timeout (O.reset w).0)
          | inr fails ↦ rw fails (some-ne _)
        ])
        (λ waited. some-ne _)

  attempts_from_ends :
      (timeout number left : ℕ) (w : O.World) → attempts_from O timeout number left w ≢ none
  unfolding attempts_from
  attempts_from_ends timeout number zero w = some-ne _
  attempts_from_ends timeout number (suc left) w =
      bind_total _ _ (attempt_once_ends timeout number w) (λ tried.
        elim (Bool-cases tried.1.board_reachable) [
          | inl back ↦ rw back (some-ne _)
          | inr gone ↦ rw gone (
              bind_total _ _ (attempts_from_ends timeout (number + 1) left tried.0)
                (λ x. some-ne _))
        ])

  recover_board_network_ends :
      (max_attempts : ℤ) (timeout : ℕ) (w : O.World)
      → recover_board_network O max_attempts timeout w ≢ none
  unfolding recover_board_network
  recover_board_network_ends max_attempts timeout w =
      elim (Bool-cases (ltb_ℤ max_attempts (pos 1))) [
        | inl few ↦ rw few (some-ne _)
        | inr more ↦ rw more (
            bind_total _ _ (attempts_from_ends timeout 1 (pos_part max_attempts) w)
              (λ x. some-ne _))
      ]

  after_recovery_ends :
      (cycle : ℕ) (later : O.World → Option (O.World × Cycles O)) (w : O.World)
      (result : Result RecoveryError Recovery)
      → ((w1 : O.World) → later w1 ≢ none)
      → after_recovery O cycle later w result ≢ none
  unfolding after_recovery
  after_recovery_ends cycle later w (err value_error) ends = some-ne _
  after_recovery_ends cycle later w (err (board_recovery_error attempts)) ends = some-ne _
  after_recovery_ends cycle later w (ok recovery) ends =
      bind_total (later w) _ (ends w) (λ found. some-ne _)

  cycles_from_ends :
      (max_attempts : ℤ) (timeout settle cycle left : ℕ) (w : O.World)
      → cycles_from O max_attempts timeout settle cycle left w ≢ none
  unfolding cycles_from
  cycles_from_ends max_attempts timeout settle cycle zero w = some-ne _
  cycles_from_ends max_attempts timeout settle cycle (suc left) w =
      bind_total _ _ (recover_board_network_ends max_attempts timeout w) (λ recovered.
        after_recovery_ends cycle _ recovered.0 recovered.1
          (λ w1. cycles_from_ends max_attempts timeout settle (cycle + 1) left _))

  -- With a clock that goes on, a qualification ends with a report or an error, whatever the board,
  -- the network and the reset command do: no wait runs out of fuel.
  pub qualify_reset_recovery_ends :
      (cycles max_attempts : ℤ) (timeout : ℕ) (settle : ℤ) (w : O.World)
      → qualify_reset_recovery O cycles max_attempts timeout settle w ≢ none
  unfolding qualify_reset_recovery
  qualify_reset_recovery_ends cycles max_attempts timeout settle w =
      elim (Bool-cases (ltb_ℤ cycles (pos 1) || ltb_ℤ settle (pos 0))) [
        | inl wrong ↦ rw wrong (some-ne _)
        | inr right ↦ rw right (
            bind_total _ _
              (cycles_from_ends max_attempts timeout (pos_part settle) 1 (pos_part cycles) w)
              (λ x. some-ne _))
      ]
