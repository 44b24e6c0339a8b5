-- ===== src/Tests/H2bRuns.antt =====
-- The schedule and the cells of the H2B campaign.
use native.Mathlib.Decide.{ℕ_discrete}
use qos_extended_mros2_esp.Base.{
  ℕ, ◌+◌, ◌-◌, ◌*◌, ◌≡◌, refl, String, some, none, List, [], ◌∷◌, ◌++◌, string_eq, nat_eq, flat_map,
  range_from,
}
use qos_extended_mros2_esp.Base.Int.{pos, int_eq}
use qos_extended_mros2_esp.Base.Order.{sort_with}
use qos_extended_mros2_esp.Base.Result.{ok}
use qos_extended_mros2_esp.H2b.{
  expected_cells, condition_for, expected_injection, VisitRow, rows_of, within, numbered_from,
  wrong_ordinals, block_order, orders_of, same_order, all_alike, validate_schedule,
}
use qos_extended_mros2_esp.H2b.Laws.{IsScheduled, validate_schedule-IsScheduled}

abbrev visits_in : ℕ → ℕ → List String → List VisitRow
visits_in block visit [] = []
visits_in block visit (cell ∷ cells) =
    record {
      id = cell;
      block = pos block;
      visit = pos visit;
      run_start = pos ((block - 1) * 3 + 1);
      run_end = pos ((block - 1) * 3 + 3);
    }
    ∷ visits_in block (visit + 1) cells

-- The order of the cells, with the first one moved to the end.
abbrev moved : List String → List String
moved [] = []
moved (cell ∷ cells) = cells ++ cell ∷ []

abbrev schedule : List VisitRow
schedule =
    visits_in 1 1 (moved expected_cells)
    ++ flat_map (λ block. visits_in block 1 expected_cells) (range_from 2 9)

schedule_passes : validate_schedule schedule ≡ ok tt
unfolding validate_schedule all_alike same_order orders_of block_order wrong_ordinals numbered_from
    within rows_of sort_with string_eq int_eq ℕ_discrete
schedule_passes = refl

validate_schedule-IsScheduled_example : IsScheduled schedule
validate_schedule-IsScheduled_example = validate_schedule-IsScheduled schedule schedule_passes

loss_of_fifteen :
    expected_injection 15
    ≡ some "transport_egress_gact_host_to_board_target_15pct_1of7_effective_14.285714pct"
unfolding expected_injection nat_eq ℕ_discrete
loss_of_fifteen = refl

no_such_cell : condition_for "reliable" 7 ≡ none
unfolding condition_for nat_eq ℕ_discrete
no_such_cell = refl
