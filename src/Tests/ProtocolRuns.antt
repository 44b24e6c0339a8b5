-- ===== src/Tests/ProtocolRuns.antt =====
-- Runs on drafts of the Seven-QoS protocol.
use qos_extended_mros2_esp.Base.{
  ℕ, ◌≡◌, refl, String, Bool, true, false, List, [], ◌∷◌, ◌<>◌, map, All, none, some, string_eq,
  option_eq, nat_eq,
}
use qos_extended_mros2_esp.Base.Dict.{Dict, keys}
use qos_extended_mros2_esp.Base.Fields.{decimal_text}
use qos_extended_mros2_esp.Base.Int.{pos, ◌+ℤ◌, ◌*ℤ◌, int_eq}
use qos_extended_mros2_esp.Base.Number.{decimal}
use qos_extended_mros2_esp.Base.Order.{sort_with}
use qos_extended_mros2_esp.Base.Text.{lower, text_le}
use qos_extended_mros2_esp.Base.Result.{Result, ok, err}
use qos_extended_mros2_esp.Protocol.{
  Value, number, Performance, value_eq, Cell, Pair, Deterministic, all_distinct, has_main_values,
  check_changed, check_corners, paths_from, validate_interaction_paths, expected_families, ids_of,
  check_paths, check_family, check_families, check_totals, validate_performance, check_matrix,
  check_matrices, validate_deterministic, dashed, zeros, padded, pair_rows, matrix_rows,
  with_ordinals, expand_cases, count_in, count_policies, GenerateError, Expanded, id_of, generate,
}
use qos_extended_mros2_esp.Protocol.Budget.{validate_performance-IsBudget, IsBudget, AreNamed}
use qos_extended_mros2_esp.Protocol.Families.{IsFamily, IsExpected}
use qos_extended_mros2_esp.Protocol.Expansion.{generate-IsGenerated, IsGenerated}

-- A family has a number of cells: an anchor, a cell for each factor, a corner, and others.
abbrev cell_of : String → String → Dict String Value → Cell
cell_of id role factors = record { id = some id; role = some role; factors = factors }

abbrev three : String → String → String → ℕ → ℕ → ℕ → Dict String Value
three a b c i j k = (a, number (pos i)) ∷ (b, number (pos j)) ∷ (c, number (pos k)) ∷ []

abbrev two : String → String → ℕ → ℕ → Dict String Value
two a b i j = (a, number (pos i)) ∷ (b, number (pos j)) ∷ []

abbrev nine : String → (ℕ → ℕ → ℕ → Dict String Value) → List Cell
nine p f =
    cell_of (p <> "0") "anchor" (f 20 10 5)
    ∷ cell_of (p <> "1") "first_main" (f 5 10 5)
    ∷ cell_of (p <> "2") "first_main" (f 40 10 5)
    ∷ cell_of (p <> "3") "second_main" (f 20 1 5)
    ∷ cell_of (p <> "4") "second_main" (f 20 40 5)
    ∷ cell_of (p <> "5") "third_main" (f 20 10 0)
    ∷ cell_of (p <> "6") "third_main" (f 20 10 15)
    ∷ cell_of (p <> "7") "interaction_corner" (f 5 40 15)
    ∷ cell_of (p <> "8") "interaction_corner" (f 40 40 15)
    ∷ []

abbrev eight : String → (ℕ → ℕ → Dict String Value) → List Cell
eight p f =
    cell_of (p <> "0") "anchor" (f 20 10)
    ∷ cell_of (p <> "1") "first_main" (f 5 10)
    ∷ cell_of (p <> "2") "first_main" (f 40 10)
    ∷ cell_of (p <> "3") "second_main" (f 20 1)
    ∷ cell_of (p <> "4") "second_main" (f 20 40)
    ∷ cell_of (p <> "5") "interaction_corner" (f 5 40)
    ∷ cell_of (p <> "6") "interaction_corner" (f 40 40)
    ∷ cell_of (p <> "7") "interaction_corner" (f 5 1)
    ∷ []

abbrev draft : Performance
draft = record {
  status = some "draft_no_data";
  accepted_runs_per_cell = some (pos 30);
  visits_per_family = pos 10;
  accepted_runs_per_cell_per_visit = pos 3;
  new_families =
      ("history_depth", nine "H" (three "depth" "burst_size" "loss_pct"))
      ∷ ("durability", eight "D" (two "late_join_s" "cache_depth"))
      ∷ ("deadline", nine "L" (three "deadline_ms" "publish_period_ms" "delay_ms"))
      ∷ ("lifespan", eight "S" (two "lifespan_ms" "release_delay_ms"))
      ∷ ("liveliness", eight "V" (two "lease_s" "outage_s"))
      ∷ ("resource_limits", nine "R" (three "max_samples" "payload_bytes" "publish_rate_hz"))
      ∷ [];
  expected_new_cells = some (pos 51);
  expected_new_accepted_runs = some (pos 1530);
  expected_combined_new_runs_after_h2b = some (pos 3270);
}

draft_passes : validate_performance draft ≡ ok (pos 51, pos 1530)
unfolding validate_performance string_eq option_eq nat_eq int_eq value_eq all_distinct
    has_main_values check_changed check_corners paths_from validate_interaction_paths ids_of
    check_paths check_family check_families check_totals ◌+ℤ◌ ◌*ℤ◌
draft_passes = refl

validate_performance-IsBudget_example :
    IsBudget draft (pos 51, pos 1530)
    × All (IsFamily draft.new_families) expected_families
    × All IsExpected (keys draft.new_families)
    × AreNamed draft
validate_performance-IsBudget_example =
    validate_performance-IsBudget draft (pos 51, pos 1530) draft_passes

-- One matrix of two directions, two orders and two pairs, and one mechanism case.
abbrev pair_of : ℕ → ℕ → Bool → Pair
pair_of offered requested matches = record {
  settings = ("offered_ms", number (pos offered)) ∷ ("requested_ms", number (pos requested)) ∷ [];
  expected_match = some matches;
}

abbrev cases : Deterministic
cases = record {
  status = some "draft_no_data";
  performance_pooling_forbidden = true;
  compatibility_matrices =
      record {
        id = "CMP-DL";
        policy = "deadline";
        kind = none;
        directions = "b2h" ∷ "h2b" ∷ [];
        endpoint_creation_orders = "remote_first" ∷ "local_first" ∷ [];
        pairs = pair_of 50 100 true ∷ pair_of 100 50 false ∷ [];
        expected_expanded_cases = some 8;
      }
      ∷ [];
  mechanism_cases =
      record {
        id = "DL-BEFORE";
        policy = "deadline";
        level = "unit";
        expected = "no miss is emitted before the configured boundary";
      }
      ∷ [];
  expected_expanded_compatibility_cases = some 8;
  expected_mechanism_cases = some 1;
  expected_total_cases = some 9;
}

generate-IsGenerated_example : IsGenerated cases (generate false cases)
generate-IsGenerated_example = generate-IsGenerated false cases

-- The identifiers of the schedule, and the counts.
abbrev summary : Result GenerateError Expanded → List String × Dict String ℕ
summary (err e) = ([], [])
summary (ok made) = (map id_of made.rows, made.policy_counts)

cases_expand : summary (generate false cases) ≡ (
  "CMP-DL-b2h-remote-first-p1" ∷ "CMP-DL-b2h-remote-first-p2" ∷ "CMP-DL-b2h-local-first-p1"
      ∷ "CMP-DL-b2h-local-first-p2" ∷ "CMP-DL-h2b-remote-first-p1" ∷ "CMP-DL-h2b-remote-first-p2"
      ∷ "CMP-DL-h2b-local-first-p1" ∷ "CMP-DL-h2b-local-first-p2" ∷ "DL-BEFORE" ∷ [],
  ("deadline", 9) ∷ [],
)
unfolding generate string_eq option_eq nat_eq all_distinct check_matrix check_matrices
    validate_deterministic dashed zeros padded pair_rows matrix_rows with_ordinals expand_cases
    count_in count_policies lower decimal decimal_text sort_with text_le
cases_expand = refl
