-- ===== src/Protocol/Cases.antt =====
-- `validate_deterministic`.
use qos_extended_mros2_esp.Base.{
  ℕ, ◌+◌, ◌*◌, String, Bool, true, false, not, none, some, List, [], ◌∷◌, map, length, any, ◌==◌,
  string_eq, option_eq, nat_eq,
}
use qos_extended_mros2_esp.Base.Result.{Result, ok, ◌>>=◌, ◌>>◌, raise_if}
use qos_extended_mros2_esp.Base.Text.{nonempty}
use qos_extended_mros2_esp.Protocol.Document.{
  Pair, Matrix, Case, Deterministic, ProtocolError, all_distinct, deterministic_status,
  pooling_allowed, duplicate_matrix_id, no_directions, no_orders, no_pairs, bad_expected_match,
  expanded_mismatch, bad_case_id, duplicate_case_id, compatibility_total, mechanism_total,
  deterministic_total,
}

abbrev pub is_empty {ℓ} : {A : Type ℓ} → List A → Bool
is_empty [] = true
is_empty (x ∷ xs) = false

abbrev pub is_unstated : Pair → Bool
is_unstated pair = elim pair.expected_match [ none ↦ true | some matches ↦ false ]

abbrev pub matrix_count : Matrix → ℕ
matrix_count matrix =
    length matrix.directions * length matrix.endpoint_creation_orders * length matrix.pairs

unfoldable pub check_matrix : Matrix → Result ProtocolError ℕ
check_matrix matrix = do
  raise_if (is_empty matrix.directions) no_directions
  raise_if (is_empty matrix.endpoint_creation_orders) no_orders
  raise_if (is_empty matrix.pairs) no_pairs
  raise_if (any is_unstated matrix.pairs) bad_expected_match
  raise_if (not (some (matrix_count matrix) == matrix.expected_expanded_cases)) expanded_mismatch
  ok (matrix_count matrix)

-- The loop over the matrices, with the sum of their counts.
unfoldable pub check_matrices : List Matrix → Result ProtocolError ℕ
check_matrices [] = ok 0
check_matrices (matrix ∷ matrices) = do
  count ← check_matrix matrix
  rest ← check_matrices matrices
  ok (count + rest)

abbrev pub matrix_id : Matrix → String
matrix_id matrix = matrix.id

abbrev pub case_id : Case → String
case_id c = c.id

abbrev pub is_unnamed : Case → Bool
is_unnamed c = not (nonempty c.id)

-- The compatibility cases, the mechanism cases and all.
unfoldable pub validate_deterministic : Deterministic → Result ProtocolError (ℕ × ℕ × ℕ)
validate_deterministic draft = do
  raise_if (not (draft.status == some "draft_no_data")) deterministic_status
  raise_if (not draft.performance_pooling_forbidden) pooling_allowed
  raise_if (not (all_distinct (map matrix_id draft.compatibility_matrices))) duplicate_matrix_id
  expanded ← check_matrices draft.compatibility_matrices
  raise_if (any is_unnamed draft.mechanism_cases) bad_case_id
  raise_if (not (all_distinct (map case_id draft.mechanism_cases))) duplicate_case_id
  let mechanism = length draft.mechanism_cases
  raise_if (not (some expanded == draft.expected_expanded_compatibility_cases)) compatibility_total
  raise_if (not (some mechanism == draft.expected_mechanism_cases)) mechanism_total
  raise_if (not (some (expanded + mechanism) == draft.expected_total_cases)) deterministic_total
  ok (expanded, mechanism, expanded + mechanism)
