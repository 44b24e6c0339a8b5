-- ===== src/Tests/ScheduleRuns.antt =====
-- A schedule, generated and validated as three_system_common.py does.
use native.Mathlib.Decide.{ℕ_discrete}
use qos_extended_mros2_esp.Base.{
  ℕ, String, List, [], ◌∷◌, ◌≡◌, refl, string_eq, nat_eq, arith, if◌then◌else◌, ltb, drop,
  Bool-cases, inl, inr,
}
use qos_extended_mros2_esp.Base.Int.{int_eq}
use qos_extended_mros2_esp.Base.Order.{sort_with, insert_with}
use qos_extended_mros2_esp.Base.Result.{Result, ok, err}
use qos_extended_mros2_esp.Compare.{
  Visit, ScheduleError, visit_count, block_systems, visits_of, rows_from, int_of, ints_of_fields,
  same_ints, in_block, check_runs, check_visits, check_blocks, validate_schedule, generate_schedule,
}
use qos_extended_mros2_esp.Compare.Blocks.{IsShuffle}
use qos_extended_mros2_esp.Compare.Generated.{generate_schedule-passes}
use qos_extended_mros2_esp.Compare.Balance.{IsBalanced, validate_schedule-IsBalanced}

-- Two orders in turn.
abbrev shuffled : ℕ → List String
shuffled block =
    if ltb 5 block
    then "mros2qos" ∷ "upstream" ∷ "microros" ∷ []
    else "microros" ∷ "mros2qos" ∷ "upstream" ∷ []

abbrev unfair : ℕ → List String
unfair block = "microros" ∷ "microros" ∷ "upstream" ∷ []

schedule : (ℕ → List String) → List Visit
unfolding rows_from visits_of
schedule order = rows_from order 1 0 10

validated : List Visit → Result ScheduleError (Unit {0})
unfolding validate_schedule check_blocks check_visits check_runs in_block same_ints ints_of_fields
    int_of sort_with insert_with int_eq string_eq nat_eq ℕ_discrete
validated rows = validate_schedule rows

schedule_passes : validate_schedule (schedule shuffled) ≡ ok tt
unfolding validated schedule
schedule_passes = refl

schedule_fails :
    (validated (schedule unfair) ≡ err (block_systems 1))
    × (validated (drop 1 (schedule shuffled)) ≡ err visit_count)
unfolding validated schedule
schedule_fails = (refl, refl)

validate_schedule-IsBalanced_example : IsBalanced (schedule shuffled) 3
validate_schedule-IsBalanced_example =
    validate_schedule-IsBalanced (schedule shuffled) tt schedule_passes 2 (omega arith)

shuffled-IsShuffle : (block : ℕ) → IsShuffle (shuffled block)
shuffled-IsShuffle block = elim (Bool-cases (ltb 5 block)) [
  | inl late ↦ rw late (inl refl)
  | inr early ↦ rw early (inr (inr (inr (inr (inl refl)))))
]

generate_schedule-passes_example : generate_schedule shuffled ≡ ok (rows_from shuffled 1 0 10)
generate_schedule-passes_example = generate_schedule-passes shuffled shuffled-IsShuffle
