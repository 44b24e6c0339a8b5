-- ===== src/H2b/Cells.antt =====
-- The constants of the campaign, and the names of its cells.
use qos_extended_mros2_esp.Base.{
  ℕ, ◌<>◌, String, Option, none, some, List, [], ◌∷◌, map, flat_map, contains, eqb, string_eq,
  nat_eq, if◌then◌else◌,
}
use qos_extended_mros2_esp.Base.Dict.{lookup}

abbrev pub qos_modes : List String
qos_modes = "reliable" ∷ "best_effort" ∷ []

-- A target, its text, the denominator's text and the effective loss as `:.6f` prints it.
pub record LossSpec : Type 0 where
  pub target_text : String
  pub two_digits : String
  pub denominator : String
  pub effective : String

abbrev pub loss_specs : List (ℕ × LossSpec)
loss_specs =
    (0, record { target_text = "0"; two_digits = "00"; denominator = "0"; effective = "0.000000" })
    ∷ (
      1,
      record { target_text = "1"; two_digits = "01"; denominator = "100"; effective = "1.000000" },
    )
    ∷ (
      5,
      record { target_text = "5"; two_digits = "05"; denominator = "20"; effective = "5.000000" },
    )
    ∷ (
      10,
      record { target_text = "10"; two_digits = "10"; denominator = "10"; effective = "10.000000" },
    )
    ∷ (
      15,
      record { target_text = "15"; two_digits = "15"; denominator = "7"; effective = "14.285714" },
    )
    ∷ []

unfoldable pub condition_for : String → ℕ → Option String
condition_for qos target_loss = elim (lookup target_loss loss_specs) [
  | none ↦ none
  | some spec ↦
      if contains qos_modes qos
      then some ("round4_transport_" <> qos <> "_" <> spec.target_text <> "pct_host_to_board")
      else none
]

unfoldable pub expected_injection : ℕ → Option String
expected_injection target_loss = elim (lookup target_loss loss_specs) [
  | none ↦ none
  | some spec ↦
      let base = "transport_egress_gact_host_to_board_target_" <> spec.target_text <> "pct_" in
      if eqb target_loss 0
      then some (base <> "effective_0pct")
      else some (base <> "1of" <> spec.denominator <> "_effective_" <> spec.effective <> "pct")
]

-- `expected_cells`
abbrev pub expected_cells : List String
expected_cells =
    flat_map
      (λ qos. map (λ (spec : ℕ × LossSpec). qos <> "_target" <> spec.1.two_digits) loss_specs)
      qos_modes
